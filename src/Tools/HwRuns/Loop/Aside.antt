-- ===== src/Tools/HwRuns/Loop/Aside.antt =====
-- `_move_aside` finds a name that is free.
use mathlib.Core.Logic.{◌≢◌}
use llm_sched_study.Base.{
  ℕ, zero, suc, ◌+◌, ◌≤◌, ◌<◌, ◌≡◌, refl, sym, ap, ◌∙◌, subst, ◌⊎◌, inl, inr, true, false, String,
  none, some, [], ◌∷◌, arith, length, is_some, contains, lookup, string_eq, ◌==◌, if◌then◌else◌,
  Bool-cases, Option-cases, dec_lt, ok, str, str-injective, str-ne_empty, ◌<>◌, append_cancel_left,
  text-append-nil,
}
use llm_sched_study.Tools.HwRuns.Loop.{Disk, aside_name, free_name, rename, move_aside}

no_number : (path : String) (n : ℕ) → path <> ".invalid" ≡ path <> (".invalid" <> str (n + 2)) → ⊥
no_number path n h = str-ne_empty (n + 2) (omega arith) (
    sym (
      append_cancel_left ".invalid" "" (str (n + 2)) (
        text-append-nil ".invalid"
        ∙ append_cancel_left path ".invalid" (".invalid" <> str (n + 2)) h)))

aside_name-injective : (path : String) (j k : ℕ) → aside_name path j ≡ aside_name path k → j ≡ k
unfolding aside_name
aside_name-injective path zero zero h = refl
aside_name-injective path zero (suc k) h = absurd (no_number path k h)
aside_name-injective path (suc j) zero h = absurd (no_number path j (sym h))
aside_name-injective path (suc j) (suc k) h =
    let same =
      str-injective (j + 2) (k + 2)
        (append_cancel_left ".invalid" _ _ (append_cancel_left path _ _ h)) in
    omega (arith, same)

-- Without one key.
without : String → Disk → Disk
without k [] = []
without k ((j, f) ∷ disk) = if j == k then disk else (j, f) ∷ without k disk

length-without :
    (k : String) (disk : Disk) → contains k disk ≡ true → length (without k disk) + 1 ≡ length disk
unfolding without
length-without k [] h = cc
length-without k ((j, f) ∷ disk) h = ground (arith, length-without k disk)

contains-without :
    (k j : String) (disk : Disk)
    → k ≢ j
    → contains j disk ≡ true
    → contains j (without k disk) ≡ true
unfolding without
contains-without k j [] ne h = cc
contains-without k j ((i, f) ∷ disk) ne h =
    ground (arith, string_eq.beq_iff i k, string_eq.beq_iff i j, contains-without k j disk)

-- Names that are all taken are no more than what is there.
taken-le :
    (path : String) (n k : ℕ) (disk : Disk)
    → ((i : ℕ) → i < n → contains (aside_name path (k + i)) disk ≡ true)
    → n ≤ length disk
taken-le path zero k disk h = omega arith
taken-le path (suc n) k disk h =
    let here : contains (aside_name path (k + 0)) disk ≡ true = h 0 (omega arith) in
    let rest = taken-le path n (k + 1) (without (aside_name path (k + 0)) disk) (λ i small.
      contains-without (aside_name path (k + 0)) (aside_name path (k + 1 + i)) disk
        (λ e. absurd (omega (arith, aside_name-injective path (k + 0) (k + 1 + i) e)))
        (subst (λ m. contains (aside_name path m) disk ≡ true) (omega arith)
          (h (i + 1) (omega arith)))) in
    omega (arith, rest, length-without (aside_name path (k + 0)) disk here)

-- What the search ends with: a free name, after names that are all taken.
abbrev pub FirstFree : String → Disk → ℕ → ℕ → Type 0
FirstFree path disk k found =
    (k ≤ found)
    × (lookup (aside_name path found) disk ≡ none)
    × ((i : ℕ) → k ≤ i → i < found → contains (aside_name path i) disk ≡ true)

contains-none : (k : String) (disk : Disk) → contains k disk ≡ false → lookup k disk ≡ none
contains-none k disk h = elim (Option-cases (lookup k disk)) [
  | inl e ↦ e
  | inr (f, e) ↦ absurd (cc (ap is_some e, h))
]

found_or_taken :
    (fuel k : ℕ) (path : String) (disk : Disk)
    → ((found : ℕ) × FirstFree path disk k found
        × (free_name fuel k path disk ≡ some (aside_name path found)))
      ⊎ ((i : ℕ) → i < fuel → contains (aside_name path (k + i)) disk ≡ true)
unfolding free_name
found_or_taken zero k path disk = inr (λ i h. absurd (omega arith))
found_or_taken (suc fuel) k path disk = elim (Bool-cases (contains (aside_name path k) disk)) [
  | inl taken ↦ elim (found_or_taken fuel (k + 1) path disk) [
    | inl (found, (above, free, before), gives) ↦ inl (
      found,
      (omega arith, free, λ i low high. later_taken i k found taken before low high),
      rw taken gives,
    )
    | inr all_taken ↦ inr (λ i h. from_next i taken all_taken h)
  ]
  | inr free ↦ inl (
    k,
    (omega arith, contains-none (aside_name path k) disk free, λ i low high. absurd (omega arith)),
    rw free refl,
  )
]
  where
    later_taken :
        (i j found : ℕ)
        → contains (aside_name path j) disk ≡ true
        → ((m : ℕ) → j + 1 ≤ m → m < found → contains (aside_name path m) disk ≡ true)
        → j ≤ i
        → i < found
        → contains (aside_name path i) disk ≡ true
    later_taken i j found taken before low high = elim (dec_lt j i) [
      | yes past ↦ before i (omega arith) high
      | no here ↦ subst (λ m. contains (aside_name path m) disk ≡ true) (omega arith) taken
    ]

    from_next :
        (i : ℕ)
        → contains (aside_name path k) disk ≡ true
        → ((m : ℕ) → m < fuel → contains (aside_name path (k + 1 + m)) disk ≡ true)
        → i < suc fuel
        → contains (aside_name path (k + i)) disk ≡ true
    from_next zero taken all_taken h =
        subst (λ m. contains (aside_name path m) disk ≡ true) (omega arith) taken
    from_next (suc i) taken all_taken h =
        subst (λ m. contains (aside_name path m) disk ≡ true) (omega arith)
          (all_taken i (omega arith))

-- Moving a run directory aside always ends: the name it gets is the first of the candidates that is
-- free, no further on than there are directories, and the result is the disk with the directory
-- renamed.
pub move_aside-ends :
    (disk : Disk) (path : String)
    → (found : ℕ) × FirstFree path disk 0 found
      × (found ≤ length disk)
      × (move_aside disk path ≡ ok (rename disk path (aside_name path found)))
unfolding move_aside
move_aside-ends disk path = elim (found_or_taken (length disk + 1) 0 path disk) [
  | inl (found, (low, free, before), gives) ↦ (
    found,
    (low, free, before),
    taken-le path found 0 disk (λ i h.
        subst (λ m. contains (aside_name path m) disk ≡ true) (omega arith)
          (before i (omega arith) h)),
    rw gives refl,
  )
  | inr all_taken ↦ absurd (omega (arith, taken-le path (length disk + 1) 0 disk all_taken))
]
