-- ===== src/Pipeline/Runset/Deployed.antt =====
-- The ratio that a run was at.
use llm_sched_study.Base.{
  ℕ, ◌≤◌, ◌≡◌, ◌≢◌, arith, map, All, All-IsAmong, IsAmong, elem, length, to_set, to_set-le_one,
  beq_self, ltb, ◌==◌, refl, sym, ap, ◌∙◌, ◌↔◌, ◌⊎◌, inl, inr, true, false, String, some, List, [],
  ◌∷◌, keep, Dict, lookup, string_eq, Result, ok, err, ◌>>=◌, traverse, >>=-eq-ok, or_raise-eq-ok,
  ok-injective, Floats, Bool-cases, Option-cases,
}
use llm_sched_study.Harness.Node.{Node, is_pool}
use llm_sched_study.Calibration.Snapshots.{Snapshot, SnapshotError, synthesizable}
use llm_sched_study.Pipeline.Runset.{
  raise_as, in_range, RunManifest, snapshot_of, is_one_class, upper_end, r_of, deployed_r,
}

to_set_of_one : (a : String) (xs : List String) → All (λ y. y ≡ a) xs → length (to_set xs) ≤ 1
to_set_of_one a [] h = omega arith
to_set_of_one a (x ∷ []) h = omega arith
to_set_of_one a (x ∷ y ∷ ys) (e, (f, h)) =
    ground (arith, string_eq.beq_iff y x, e, f, to_set_of_one a (y ∷ ys) (f, h))

elem_first : (a : String) (xs : List String) → elem a (a ∷ xs) ≡ true
elem_first a xs = ground (arith, beq_self a)

module _ (fl : Floats) where
  open fl use {Float, of_nat}

  -- The snapshots are of one node class at most.
  abbrev pub OfOneClass : List (Snapshot Float) → Type 0
  OfOneClass ss = (node_class : String) × All (λ s. s.node_class ≡ node_class) ss

  -- Two of the snapshots differ in their node class.
  abbrev pub OfTwoClasses : List (Snapshot Float) → Type 0
  OfTwoClasses ss =
      (s : Snapshot Float) × (t : Snapshot Float) × IsAmong s ss
      × IsAmong t ss
      × (s.node_class ≢ t.node_class)

  All-classes_iff :
      (c : String) (ss : List (Snapshot Float))
      → All (λ y. y ≡ c) (map (λ s. s.node_class) ss) ↔ All (λ s. s.node_class ≡ c) ss
  All-classes_iff c [] = (λ h. h, λ h. h)
  All-classes_iff c (s ∷ ss) =
      let rest = All-classes_iff c ss in (λ (h, hs). (h, rest.0 hs), λ (h, hs). (h, rest.1 hs))

  All-or_other :
      (c : String) (ss : List (Snapshot Float))
      → All (λ s. s.node_class ≡ c) ss ⊎ ((t : Snapshot Float) × IsAmong t ss × (c ≢ t.node_class))
  All-or_other c [] = inl tt
  All-or_other c (s ∷ ss) = elim (Bool-cases (s.node_class == c)) [
    | inl like ↦ elim (All-or_other c ss) [
      | inl rest ↦ inl ((string_eq.beq_iff s.node_class c).0 like, rest)
      | inr (t, m, other) ↦ inr (t, inr m, other)
    ]
    | inr unlike ↦ inr (s, inl refl, λ e. cc ((string_eq.beq_iff s.node_class c).1 (sym e)))
  ]

  is_one_class-OfOneClass : (ss : List (Snapshot Float)) → is_one_class fl ss ≡ true → OfOneClass ss
  is_one_class-OfOneClass [] h = ("", tt)
  is_one_class-OfOneClass (s ∷ ss) h =
      let classes = map (λ (x : Snapshot Float). x.node_class) (s ∷ ss) in
      (
        s.node_class,
        (All-classes_iff s.node_class (s ∷ ss)).0 (
            to_set-le_one s.node_class classes (le_one (length (to_set classes)) h)
              (elem_first s.node_class (map (λ (x : Snapshot Float). x.node_class) ss))),
      )
    where
      le_one : (n : ℕ) → ltb n 2 ≡ true → n ≤ 1
      le_one n h = ground arith

  OfOneClass-is_one_class : (ss : List (Snapshot Float)) → OfOneClass ss → is_one_class fl ss ≡ true
  OfOneClass-is_one_class ss (c, h) =
      below_two (length (to_set (map (λ (x : Snapshot Float). x.node_class) ss))) (
        to_set_of_one c (map (λ (x : Snapshot Float). x.node_class) ss)
          ((All-classes_iff c ss).1 h))
    where
      below_two : (n : ℕ) → n ≤ 1 → ltb n 2 ≡ true
      below_two n h = ground arith

  class-cases :
      (ss : List (Snapshot Float))
      → ((is_one_class fl ss ≡ true) × OfOneClass ss)
        ⊎ ((is_one_class fl ss ≡ false) × OfTwoClasses ss)
  class-cases ss = elim (Bool-cases (is_one_class fl ss)) [
    | inl one ↦ inl (one, is_one_class-OfOneClass ss one)
    | inr more ↦ inr (more, two ss more)
  ]
    where
      two : (ss : List (Snapshot Float)) → is_one_class fl ss ≡ false → OfTwoClasses ss
      two [] more = cc
      two (s ∷ rest) more = elim (All-or_other s.node_class rest) [
        | inl like ↦ cc (more, OfOneClass-is_one_class (s ∷ rest) (s.node_class, (refl, like)))
        | inr (t, m, other) ↦ (s, t, inl refl, inr m, other)
      ]

  both_classes : (ss : List (Snapshot Float)) → OfOneClass ss → ¬ OfTwoClasses ss
  both_classes ss (c, h) (s, t, m, n, other) =
      let in_class : Snapshot Float → Type 0 = λ x. x.node_class ≡ c in
      other (All-IsAmong in_class s ss h m ∙ sym (All-IsAmong in_class t ss h n))

  -- The snapshots are those that the manifest names for the nodes, one for each, in order.
  abbrev pub AreNamed :
      Dict String String → Dict String (Snapshot Float) → List Node → List (Snapshot Float) → Type 0
  AreNamed named index [] [] = Unit
  AreNamed named index [] (_ ∷ _) = ⊥
  AreNamed named index (_ ∷ _) [] = ⊥
  AreNamed named index (n ∷ ns) (s ∷ snapshots) =
      ((snapshot_id : String) × (lookup n.node_id named ≡ some snapshot_id)
        × (lookup snapshot_id index ≡ some s))
      × AreNamed named index ns snapshots

  snapshot_of_iff :
      (named : Dict String String) (index : Dict String (Snapshot Float)) (n : Node)
      (s : Snapshot Float)
      → (snapshot_of fl named index n ≡ ok s) ↔ (
          (snapshot_id : String) × (lookup n.node_id named ≡ some snapshot_id)
          × (lookup snapshot_id index ≡ some s))
  snapshot_of_iff named index n s = elim (Option-cases (lookup n.node_id named)) [
    | inl e ↦ (λ h. cc (rw e at h), λ (i, found, at). cc)
    | inr (j, e) ↦ (
      λ h. (j, e, or_raise-eq-ok (lookup j index) _ s (rw e at h)),
      λ (i, found, at). let same : i ≡ j = cc in rw (e, ← same, at) refl,
    )
  ]

  named_iff :
      (named : Dict String String) (index : Dict String (Snapshot Float)) (ns : List Node)
      (ss : List (Snapshot Float))
      → (traverse (snapshot_of fl named index) ns ≡ ok ss) ↔ AreNamed named index ns ss
  named_iff named index [] [] = (λ _. tt, λ _. refl)
  named_iff named index [] (s ∷ ss) = (λ h. cc, λ h. absurd h)
  named_iff named index (n ∷ ns) [] = (
    λ h.
        let (y, _, h1) = >>=-eq-ok (snapshot_of fl named index n) _ h in
        let (ys, _, h2) = >>=-eq-ok (traverse (snapshot_of fl named index) ns) _ h1 in cc,
    λ h. absurd h,
  )
  named_iff named index (n ∷ ns) (s ∷ ss) = (
    λ h.
        let (y, first, h1) = >>=-eq-ok (snapshot_of fl named index n) _ h in
        let (ys, rest, h2) = >>=-eq-ok (traverse (snapshot_of fl named index) ns) _ h1 in
        let here : snapshot_of fl named index n ≡ ok s = cc (first, h2) in
        let there : traverse (snapshot_of fl named index) ns ≡ ok ss = cc (rest, h2) in
        ((snapshot_of_iff named index n s).0 here, (named_iff named index ns ss).0 there),
    λ (here, there).
        rw ((snapshot_of_iff named index n s).1 here, (named_iff named index ns ss).1 there) refl,
  )

  upper_end_iff :
      (ss : List (Snapshot Float)) (r : Float)
      → (upper_end fl ss ≡ ok r) ↔ ((lo : Float) × (synthesizable fl ss ≡ ok (lo, r)))
  upper_end_iff ss r = range_iff (synthesizable fl ss)
    where
      range_iff :
          (range : Result SnapshotError (Float × Float))
          → ((raise_as in_range range >>= λ bounds. ok bounds.1) ≡ ok r)
            ↔ ((lo : Float) × (range ≡ ok (lo, r)))
      range_iff (ok (lo, hi)) = (
        λ h. (lo, ap (λ x. ok (lo, x)) (ok-injective _ _ h)),
        λ (_, h). ap (λ x. ok x.1) (ok-injective _ _ h),
      )
      range_iff (err e) = (λ h. cc, λ (_, h). cc)

  r_of-one : (ss : List (Snapshot Float)) → is_one_class fl ss ≡ true → ok (of_nat 1) ≡ r_of fl ss
  r_of-one ss one = rw (one, r_of) refl

  r_of-more :
      (ss : List (Snapshot Float)) → is_one_class fl ss ≡ false → upper_end fl ss ≡ r_of fl ss
  r_of-more ss more = rw (more, r_of) refl

  -- The ratio of a run comes back exactly if the manifest names a snapshot that is in the index for
  -- each node of the pool, and it is one where these are of one node class at most, or, where two of
  -- them differ in their class, the upper end of their range.
  pub deployed_r-eq-ok :
      (manifest : RunManifest Float) (index : Dict String (Snapshot Float)) (r : Float)
      → (deployed_r fl manifest index ≡ ok r) ↔ (
          (ss : List (Snapshot Float)) × AreNamed manifest.cost_model_snapshots index
            (keep is_pool manifest.base.nodes)
            ss
          × ((OfOneClass ss × (r ≡ of_nat 1))
              ⊎ (OfTwoClasses ss × ((lo : Float) × (synthesizable fl ss ≡ ok (lo, r))))))
  unfolding deployed_r
  deployed_r-eq-ok manifest index r = (
    λ h.
        let (ss, h1, h2) =
          >>=-eq-ok
            (traverse (snapshot_of fl manifest.cost_model_snapshots index)
              (keep is_pool manifest.base.nodes))
            (r_of fl) h in
        (
          ss,
          (named_iff _ _ _ ss).0 h1,
          elim (class-cases ss) [
            | inl (one, same) ↦ inl (same, sym (ok-injective _ _ (r_of-one ss one ∙ h2)))
            | inr (more, two) ↦ inr (two, (upper_end_iff ss r).0 (r_of-more ss more ∙ h2))
          ],
        ),
    λ (ss, named, value).
        ap (λ found. found >>= r_of fl) ((named_iff _ _ _ ss).1 named) ∙ elim value [
          | inl (same, is) ↦ sym (r_of-one ss (OfOneClass-is_one_class ss same)) ∙ ap ok (sym is)
          | inr (two, ranged) ↦ elim (class-cases ss) [
            | inl (_, same) ↦ absurd (both_classes ss same two)
            | inr (more, _) ↦ sym (r_of-more ss more) ∙ (upper_end_iff ss r).1 ranged
          ]
        ],
  )
