-- ===== src/Calibration/Snapshots.antt =====
-- calibration/r_range.py, `synthesizable`: the range read off a set of C-3 snapshots, at the cells
-- that every node class was measured at.
pub mod Shared
mod Tests
use llm_sched_study.Base.{
  ℕ, Bool, true, false, not, ◌&&◌, ◌||◌, ◌↔◌, ◌≡◌, String, Option, none, some, List, [], ◌∷◌, map,
  keep, all, length, truthy, arith, Dict, lookup, insert, contains, ltb, ◌==◌, Eq, nat_eq,
  string_eq, if◌then◌else◌, Result, ok, err, ◌>>=◌, ◌>>◌, raise_if, or_raise, traverse, text_leb,
  sort_by, best_from, Floats,
}

-- `(tuple(prompt_bucket), tuple(output_bucket), concurrency)`
pub record Cell : Type 0 where
  pub prompt_from : ℕ
  pub prompt_to : ℕ
  pub output_from : ℕ
  pub output_to : ℕ
  pub concurrency : ℕ

abbrev pub same_cell : Cell → Cell → Bool
same_cell a b =
    (a.prompt_from == b.prompt_from)
    && (a.prompt_to == b.prompt_to)
    && (a.output_from == b.output_from)
    && (a.output_to == b.output_to)
    && (a.concurrency == b.concurrency)

pub same_cell_iff : (a b : Cell) → (same_cell a b ≡ true) ↔ (a ≡ b)
same_cell_iff a b = ground (
  arith,
  nat_eq.beq_iff a.prompt_from b.prompt_from,
  nat_eq.beq_iff a.prompt_to b.prompt_to,
  nat_eq.beq_iff a.output_from b.output_from,
  nat_eq.beq_iff a.output_to b.output_to,
  nat_eq.beq_iff a.concurrency b.concurrency,
)

instance abbrev pub cell_eq : Eq Cell
cell_eq = record { beq = same_cell; beq_iff = same_cell_iff }

pub record Snapshot (F : Type 0) : Type 0 where
  pub snapshot_id : String
  pub node_class : String
  pub measured_at_unix : ℕ
  pub entries : List (Cell × F)

-- The exceptions of `synthesizable`; the last three are not ValueErrors of its own.
pub data SnapshotError : Type 0 where
  too_few_classes : List String → SnapshotError
  no_common_cell : List String → SnapshotError
  no_cell : String → SnapshotError
  empty_max : SnapshotError
  zero_division : SnapshotError

module _ {F : Type 0} where
  -- `(s["measured_at_unix"], s["snapshot_id"])` in order.
  abbrev pub measured_leb : Snapshot F → Snapshot F → Bool
  measured_leb a b =
      ltb a.measured_at_unix b.measured_at_unix
      || ((a.measured_at_unix == b.measured_at_unix) && text_leb a.snapshot_id b.snapshot_id)

  abbrev pub place : Snapshot F → List (Snapshot F) → List (Snapshot F)
  place a [] = a ∷ []
  place a (b ∷ bs) = if measured_leb a b then a ∷ b ∷ bs else b ∷ place a bs

  abbrev pub by_measured : List (Snapshot F) → List (Snapshot F)
  by_measured [] = []
  by_measured (a ∷ rest) = place a (by_measured rest)

  abbrev pub keep_latest : Dict String (Snapshot F) → List (Snapshot F) → Dict String (Snapshot F)
  keep_latest latest [] = latest
  keep_latest latest (snap ∷ snaps) = keep_latest (insert snap.node_class snap latest) snaps

  abbrev pub cells_from : Dict Cell F → List (Cell × F) → Dict Cell F
  cells_from cells [] = cells
  cells_from cells ((cell, rate) ∷ entries) = cells_from (insert cell rate cells) entries

  -- `by_class`
  pub by_class : List (Snapshot F) → Dict String (Dict Cell F)
  by_class snapshots =
      map (λ (node_class, snap). (node_class, cells_from [] snap.entries))
        (keep_latest [] (by_measured snapshots))

  abbrev pub class_names : Dict String (Dict Cell F) → List String
  class_names classes = sort_by (λ c. c) (map (λ p. p.0) classes)

  -- The cells of the first class that every other class has.
  abbrev pub common_cells : Dict String (Dict Cell F) → List Cell
  common_cells [] = []
  common_cells ((_, cells) ∷ classes) =
      keep (λ cell. all (λ (_, others). contains cell others) classes) (map (λ p. p.0) cells)

  abbrev pub rate_at : Cell → String × Dict Cell F → Result SnapshotError F
  rate_at cell (node_class, cells) = or_raise (lookup cell cells) (no_cell node_class)

module _ (fl : Floats) where
  open fl use {Float, of_nat, div, lt, feq}

  -- `max(rates)` and `min(rates)` of `m ∷ ms`.
  abbrev pub highest_rate : Float → List Float → Float
  highest_rate m ms = best_from (λ a b. lt b a) m ms

  abbrev pub lowest_rate : Float → List Float → Float
  lowest_rate m ms = best_from lt m ms

  abbrev pub ratio_of : List Float → Result SnapshotError Float
  ratio_of [] = err empty_max
  ratio_of (m ∷ ms) = do
    raise_if (feq (lowest_rate m ms) (of_nat 0)) zero_division
    ok (div (highest_rate m ms) (lowest_rate m ms))

  abbrev pub cell_ratio : Dict String (Dict Cell Float) → Cell → Result SnapshotError Float
  cell_ratio classes cell = do rates ← traverse (rate_at cell) classes; ratio_of rates

  abbrev pub greatest : List Float → Result SnapshotError Float
  greatest [] = err empty_max
  greatest (r ∷ rs) = ok (highest_rate r rs)

  -- `1.0` and `max(... for cell in common)`.
  abbrev pub widest_over : Dict String (Dict Cell Float) → Result SnapshotError (Float × Float)
  widest_over classes = do
    ratios ← traverse (cell_ratio classes) (common_cells classes)
    r_max ← greatest ratios
    ok (of_nat 1, r_max)

  abbrev pub range_over : Dict String (Dict Cell Float) → Result SnapshotError (Float × Float)
  range_over classes = do
    raise_if (ltb (length classes) 2) (too_few_classes (class_names classes))
    raise_if (not (truthy (common_cells classes))) (no_common_cell (class_names classes))
    widest_over classes

  pub synthesizable : List (Snapshot Float) → Result SnapshotError (Float × Float)
  unfolding by_class
  synthesizable snapshots = range_over (by_class snapshots)
