-- ===== src/Tools/HwRuns/Plan/Slots.antt =====
-- The plan as one comprehension: which runs there are, in which order, with which seeds.
use mathlib.Core.List.{append-nil, append_assoc, map-append}
use llm_sched_study.Base.{
  ℕ, ◌+◌, ◌≡◌, sym, ap, ◌∙◌, subst, String, Option, none, some, List, [], ◌∷◌, ◌++◌, map, length,
  arith, ℤ, flat_map, flat_map-singleton, Result, ok, >>=-eq-ok, ok-injective, Floats,
}
use llm_sched_study.Tools.PoolLoad.{Target}
use llm_sched_study.Tools.HwRuns.{Point, Arm, Workload, Campaign, Run, HwError}
use llm_sched_study.Tools.HwRuns.Plan.{
  Outside, each, rounds, seed_at, scheduler_seed_at, sort_points, order_for, scale_for, with_rate,
  resolve_point, add_run, add_staleness, add_point, add_repeat, plan,
}

-- What a run is for: its repeat, point, staleness, workload, arm and policy.
pub record Slot (F : Type 0) : Type 0 where
  pub repeat : ℕ
  pub point : String
  pub staleness_s : F
  pub workload : Workload F
  pub arm : Arm F
  pub policy : String

abbrev pub slot_of : {F : Type 0} → Run F → Slot F
slot_of r = record {
  repeat = r.repeat;
  point = r.point.name;
  staleness_s = r.staleness_s;
  workload = r.workload;
  arm = r.arm;
  policy = r.policy;
}

-- A loop whose body adds what `added` says adds all of it, in order.
each_adds :
    {R A B : Type 0} (view : R → B) (f : List R → A → Result HwError (List R)) (added : A → List B)
    → ((rs : List R) (a : A) (out : List R)
        → f rs a ≡ ok out
        → map view out ≡ map view rs ++ added a)
    → (rs : List R) (xs : List A) (out : List R) → each f rs xs ≡ ok out
    → map view out ≡ map view rs ++ flat_map added xs
each_adds view f added step rs [] out h = rw (← ok-injective _ _ h) (sym (append-nil (map view rs)))
each_adds view f added step rs (x ∷ xs) out h =
    let (next, first, rest) = >>=-eq-ok (f rs x) (λ next. each f next xs) h in
    each_adds view f added step next xs out rest
    ∙ ap (λ ys. ys ++ flat_map added xs) (step rs x next first)
    ∙ append_assoc (map view rs) (added x) (flat_map added xs)

-- A loop keeps what its body keeps.
pub each_keeps :
    {S A : Type 0} (P : S → Type 0) (f : S → A → Result HwError S)
    → ((s : S) (a : A) (out : S) → P s → f s a ≡ ok out → P out)
    → (s : S) (xs : List A) (out : S) → P s
    → each f s xs ≡ ok out
    → P out
each_keeps P f step s [] out p h = subst P (ok-injective _ _ h) p
each_keeps P f step s (x ∷ xs) out p h =
    let (next, first, rest) = >>=-eq-ok (f s x) (λ next. each f next xs) h in
    each_keeps P f step next xs out (step s x next p first) rest

-- The runs are numbered from `n` on.
abbrev pub NumberedFrom : {F : Type 0} → ℕ → List (Run F) → Type 0
NumberedFrom n [] = Unit
NumberedFrom n (r ∷ rs) = (r.sequence_no ≡ n) × NumberedFrom (n + 1) rs

NumberedFrom-append :
    {F : Type 0} (n : ℕ) (rs : List (Run F)) (r : Run F)
    → NumberedFrom n rs
    → r.sequence_no ≡ n + length rs
    → NumberedFrom n (rs ++ r ∷ [])
NumberedFrom-append n [] r h e = (omega (arith, e), tt)
NumberedFrom-append n (x ∷ rs) r (h, hs) e =
    (h, NumberedFrom-append (n + 1) rs r hs (omega (arith, e)))

module _ (fl : Floats) (o : Outside fl) (c : Campaign fl.Float) where
  open fl use {Float}

  abbrev pub run_slot : ℕ → Point Float → Float → Workload Float × (Arm Float × String) → Slot Float
  run_slot rep point staleness (w, (a, policy)) = record {
    repeat = rep;
    point = point.name;
    staleness_s = staleness;
    workload = w;
    arm = a;
    policy = policy;
  }

  -- The slots of one repeat.
  abbrev pub point_slots : ℕ → Point Float → List (Slot Float)
  point_slots rep point =
      flat_map
        (λ staleness.
          map (run_slot rep point staleness)
            (order_for fl o c rep point staleness c.workloads c.arms))
        c.staleness_s

  abbrev pub slots : List (Slot Float)
  slots =
      flat_map (λ rep. flat_map (point_slots rep) (sort_points fl o c.points)) (rounds c.repeats)

  with_rate-name :
      (point resolved : Point Float) (w : Workload Float) (rate : Option Float)
      (target : Option (Target Float))
      → with_rate fl o c point w rate target ≡ ok resolved
      → resolved.name ≡ point.name
  with_rate-name point resolved w (some rate) target h = ap (λ p. p.name) (ok-injective _ _ (sym h))
  with_rate-name point resolved w none none h = ap (λ p. p.name) (ok-injective _ _ (sym h))
  with_rate-name point resolved w none (some target) h =
      let (rate, _, rest) =
        >>=-eq-ok (scale_for fl o c target w) (λ rate. ok (record point { rate_scale = some rate }))
          h in
      ap (λ p. p.name) (ok-injective _ _ (sym rest))

  resolve_point-name :
      (point resolved : Point Float) (w : Workload Float)
      → resolve_point fl o c point w ≡ ok resolved
      → resolved.name ≡ point.name
  unfolding resolve_point
  resolve_point-name point resolved w h =
      with_rate-name point resolved w point.rate_scale point.target h

  add_run-slot :
      (rep : ℕ) (gen_seed scheduler_seed : Option ℤ) (point : Point Float) (staleness : Float)
      (rs : List (Run Float)) (x : Workload Float × (Arm Float × String)) (out : List (Run Float))
      → add_run fl o c rep gen_seed scheduler_seed point staleness rs x ≡ ok out
      → map slot_of out ≡ map slot_of rs ++ run_slot rep point staleness x ∷ []
  unfolding add_run
  add_run-slot rep gen_seed scheduler_seed point staleness rs (w, (a, policy)) out h =
      let (resolved, first, rest) = >>=-eq-ok (resolve_point fl o c point w) _ h in
      ap (map slot_of) (sym (ok-injective _ _ rest))
      ∙ map-append slot_of rs _
      ∙ ap
          (λ name.
            map slot_of rs
            ++ record (run_slot rep point staleness (w, (a, policy))) { point = name } ∷ [])
          (resolve_point-name point resolved w first)

  add_run-Numbered :
      (rep : ℕ) (gen_seed scheduler_seed : Option ℤ) (point : Point Float) (staleness : Float)
      (rs : List (Run Float)) (x : Workload Float × (Arm Float × String)) (out : List (Run Float))
      → NumberedFrom 0 rs
      → add_run fl o c rep gen_seed scheduler_seed point staleness rs x ≡ ok out
      → NumberedFrom 0 out
  unfolding add_run
  add_run-Numbered rep gen_seed scheduler_seed point staleness rs (w, (a, policy)) out n h =
      let (resolved, first, rest) = >>=-eq-ok (resolve_point fl o c point w) _ h in
      subst (NumberedFrom 0) (ok-injective _ _ rest) (NumberedFrom-append 0 rs _ n (omega arith))

  add_staleness-slots :
      (rep : ℕ) (gen_seed scheduler_seed : Option ℤ) (point : Point Float) (rs : List (Run Float))
      (staleness : Float) (out : List (Run Float))
      → add_staleness fl o c rep gen_seed scheduler_seed point rs staleness ≡ ok out
      → map slot_of out
        ≡ map slot_of rs
          ++ map
              (run_slot rep point staleness)
              (order_for fl o c rep point staleness c.workloads c.arms)
  add_staleness-slots rep gen_seed scheduler_seed point rs staleness out h =
      let order = order_for fl o c rep point staleness c.workloads c.arms in
      each_adds slot_of (add_run fl o c rep gen_seed scheduler_seed point staleness)
        (λ x. run_slot rep point staleness x ∷ [])
        (add_run-slot rep gen_seed scheduler_seed point staleness) rs order out h
      ∙ ap (λ ys. map slot_of rs ++ ys) (flat_map-singleton (run_slot rep point staleness) order)

  add_repeat-slots :
      (rs : List (Run Float)) (rep : ℕ) (out : List (Run Float))
      → add_repeat fl o c rs rep ≡ ok out
      → map slot_of out ≡ map slot_of rs ++ flat_map (point_slots rep) (sort_points fl o c.points)
  add_repeat-slots rs rep out h =
      let (gen_seed, _, h1) = >>=-eq-ok (seed_at c.repeat_seeds rep) _ h in
      let (scheduler_seed, _, h2) =
        >>=-eq-ok (scheduler_seed_at c.scheduler_seeds gen_seed rep)
          (λ s. each (add_point fl o c rep gen_seed s) rs (sort_points fl o c.points)) h1 in
      each_adds slot_of (add_point fl o c rep gen_seed scheduler_seed) (point_slots rep)
        (λ rs point out h.
          each_adds slot_of (add_staleness fl o c rep gen_seed scheduler_seed point)
            (λ staleness.
              map (run_slot rep point staleness)
                (order_for fl o c rep point staleness c.workloads c.arms))
            (add_staleness-slots rep gen_seed scheduler_seed point) rs c.staleness_s out h)
        rs (sort_points fl o c.points) out h2

  -- Whatever a loop of one repeat keeps of the runs before it, it keeps after it.
  pub add_repeat-keeps :
      (P : List (Run Float) → Type 0) (rs : List (Run Float)) (rep : ℕ) (out : List (Run Float))
      (gen_seed scheduler_seed : Option ℤ)
      → ((point : Point Float) (staleness : Float) (rs : List (Run Float))
            (x : Workload Float × (Arm Float × String)) (out : List (Run Float))
          → P rs
          → add_run fl o c rep gen_seed scheduler_seed point staleness rs x ≡ ok out
          → P out)
      → P rs
      → each (add_point fl o c rep gen_seed scheduler_seed) rs (sort_points fl o c.points) ≡ ok out
      → P out
  add_repeat-keeps P rs rep out gen_seed scheduler_seed step p h =
      each_keeps P (add_point fl o c rep gen_seed scheduler_seed)
        (λ rs point out p h.
          each_keeps P (add_staleness fl o c rep gen_seed scheduler_seed point)
            (λ rs staleness out p h.
              each_keeps P (add_run fl o c rep gen_seed scheduler_seed point staleness)
                (step point staleness) rs (order_for fl o c rep point staleness c.workloads c.arms)
                out p h)
            rs c.staleness_s out p h)
        rs (sort_points fl o c.points) out p h

  pub seeds_of_repeat :
      (rs : List (Run Float)) (rep : ℕ) (out : List (Run Float))
      → add_repeat fl o c rs rep ≡ ok out
      → (gen_seed : Option ℤ) × (scheduler_seed : Option ℤ) × (seed_at c.repeat_seeds rep
          ≡ ok gen_seed)
        × (scheduler_seed_at c.scheduler_seeds gen_seed rep ≡ ok scheduler_seed)
        × (each (add_point fl o c rep gen_seed scheduler_seed) rs (sort_points fl o c.points)
            ≡ ok out)
  seeds_of_repeat rs rep out h =
      let (gen_seed, e1, h1) = >>=-eq-ok (seed_at c.repeat_seeds rep) _ h in
      let (scheduler_seed, e2, h2) =
        >>=-eq-ok (scheduler_seed_at c.scheduler_seeds gen_seed rep)
          (λ s. each (add_point fl o c rep gen_seed s) rs (sort_points fl o c.points)) h1 in
      (gen_seed, scheduler_seed, e1, e2, h2)

  -- The plan is one run for each of its slots, in their order, and numbers them from zero.
  pub plan-slots :
      (runs : List (Run Float))
      → plan fl o c ≡ ok runs
      → (map slot_of runs ≡ slots) × NumberedFrom 0 runs
  unfolding plan
  plan-slots runs h = (
    each_adds slot_of (add_repeat fl o c)
        (λ rep. flat_map (point_slots rep) (sort_points fl o c.points)) add_repeat-slots []
        (rounds c.repeats) runs h,
    each_keeps (NumberedFrom 0) (add_repeat fl o c)
        (λ rs rep out n h.
          let (gen_seed, scheduler_seed, _, _, h2) = seeds_of_repeat rs rep out h in
          add_repeat-keeps (NumberedFrom 0) rs rep out gen_seed scheduler_seed
            (add_run-Numbered rep gen_seed scheduler_seed) n h2)
        [] (rounds c.repeats) runs tt h,
  )
