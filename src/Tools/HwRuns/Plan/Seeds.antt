-- ===== src/Tools/HwRuns/Plan/Seeds.antt =====
-- The plan of a campaign whose seeds were checked.
use llm_sched_study.Base.{
  ℕ, zero, suc, ◌-◌, ◌^◌, ◌<◌, ◌≡◌, refl, sym, ap, ◌∙◌, subst, ◌⊎◌, inl, inr, Bool, true, String,
  Option, none, some, List, [], ◌∷◌, length, arith, All, All-append, IsAmong, is_some, ℤ, pos,
  negsuc, Result, ok, ◌>>=◌, >>=-eq-ok, ok-injective, Floats,
}
use llm_sched_study.Tools.HwRuns.{Point, Arm, Workload, Campaign, Run, HwError}
use llm_sched_study.Tools.HwRuns.Checks.{check_seeds}
use llm_sched_study.Tools.HwRuns.Checks.Seeds.{
  IsCount, IsJavaInt, RepeatSeeds, SchedulerSeeds, check_seeds_iff,
}
use llm_sched_study.Tools.HwRuns.Plan.{
  Outside, each, item, int_mod, wrapped, rounds, seed_at, scheduler_seed_at, sort_points, order_for,
  resolve_point, add_run, add_staleness, add_point, add_repeat, plan,
}
use llm_sched_study.Tools.HwRuns.Plan.Slots.{each_keeps, add_repeat-keeps, seeds_of_repeat}
use llm_sched_study.Tools.HwRuns.Plan.Rows.{IsRepeat, IsAmong-rounds_iff}
use llm_sched_study.Tools.HwRuns.Plan.Covers.{KeepsMembers, IsAmong-sort_points_iff, order_for_iff}

item-All :
    {A : Type 0} (P : A → Type 0) (xs : List A) (i : ℕ) (x : A) → All P xs → item xs i ≡ ok x → P x
item-All P (y ∷ ys) zero x (p, ps) h = subst P (ok-injective _ _ h) p
item-All P (y ∷ ys) (suc i) x (p, ps) h = item-All P ys i x ps h
item-All P [] i x ps h = cc h

item-total : {A : Type 0} (xs : List A) (i : ℕ) → i < length xs → (x : A) × (item xs i ≡ ok x)
item-total [] i h = absurd (omega (arith, h))
item-total (x ∷ xs) zero h = (x, refl)
item-total (x ∷ xs) (suc i) h = item-total xs i (omega (arith, h))

each-total :
    {S A : Type 0} (f : S → A → Result HwError S) (xs : List A)
    → ((s : S) (a : A) → IsAmong a xs → (out : S) × (f s a ≡ ok out))
    → (s : S) → (out : S) × (each f s xs ≡ ok out)
each-total f [] total s = (s, refl)
each-total f (x ∷ xs) total s =
    let (next, first) = total s x (inl refl) in
    let (out, rest) = each-total f xs (λ s a m. total s a (inr m)) next in
    (out, ap (λ r. r >>= λ next. each f next xs) first ∙ rest)

then-total :
    {A B : Type 0} (m : Result HwError A) (f : A → B)
    → (a : A) × (m ≡ ok a)
    → (b : B) × ((m >>= λ a. ok (f a)) ≡ ok b)
then-total m f (a, e) = (f a, ap (λ r. r >>= λ a. ok (f a)) e)

abbrev pub HasSeed : Option ℤ → Type 0
HasSeed seed = (x : ℤ) × (seed ≡ some x) × IsJavaInt x

wrapped-IsJavaInt : (seed : ℤ) → IsJavaInt (pos (int_mod seed (2 ^ 31)))
wrapped-IsJavaInt (pos n) = omega arith
wrapped-IsJavaInt (negsuc n) = omega arith

scheduler_seed-HasSeed :
    (repeats : ℤ) (repeat_seeds scheduler_seeds : Option (List ℤ)) (rep : ℕ)
    (gen_seed scheduler_seed : Option ℤ)
    → ((is_some scheduler_seeds ≡ true) ⊎ (is_some repeat_seeds ≡ true))
    → SchedulerSeeds repeats scheduler_seeds
    → seed_at repeat_seeds rep ≡ ok gen_seed
    → scheduler_seed_at scheduler_seeds gen_seed rep ≡ ok scheduler_seed
    → HasSeed scheduler_seed
scheduler_seed-HasSeed repeats repeat_seeds (some seeds) rep gen_seed scheduler_seed given (_, java)
      _ h =
    let (x, found, rest) = >>=-eq-ok (item seeds (rep - 1)) _ h in
    (x, sym (ok-injective _ _ rest), item-All IsJavaInt seeds (rep - 1) x java found)
scheduler_seed-HasSeed repeats (some seeds) none rep gen_seed scheduler_seed given _ first h =
    let (x, _, rest) = >>=-eq-ok (item seeds (rep - 1)) _ first in
    (
      pos (int_mod x (2 ^ 31)),
      sym (ok-injective _ _ h) ∙ ap wrapped (sym (ok-injective _ _ rest)),
      wrapped-IsJavaInt x,
    )
scheduler_seed-HasSeed repeats none none rep gen_seed scheduler_seed given _ _ h = ground arith

seed_at-total :
    (repeats : ℤ) (seeds : List ℤ) (rep : ℕ)
    → IsCount (length seeds) repeats
    → IsRepeat repeats rep
    → (out : Option ℤ) × (seed_at (some seeds) rep ≡ ok out)
seed_at-total (pos n) seeds rep e (low, high) =
    let (x, found) = item-total seeds (rep - 1) (omega arith) in
    (some x, ap (λ r. r >>= λ seed. ok (some seed)) found)
seed_at-total (negsuc n) seeds rep e r = absurd r

gen_seed-total :
    (repeats : ℤ) (seeds : Option (List ℤ)) (seeded : Bool) (rep : ℕ)
    → RepeatSeeds repeats seeds seeded
    → IsRepeat repeats rep
    → (out : Option ℤ) × (seed_at seeds rep ≡ ok out)
gen_seed-total repeats none seeded rep stated r = (none, refl)
gen_seed-total repeats (some seeds) seeded rep (count, _) r =
    seed_at-total repeats seeds rep count r

scheduler_seed-total :
    (repeats : ℤ) (seeds : Option (List ℤ)) (gen_seed : Option ℤ) (rep : ℕ)
    → SchedulerSeeds repeats seeds
    → IsRepeat repeats rep
    → (out : Option ℤ) × (scheduler_seed_at seeds gen_seed rep ≡ ok out)
scheduler_seed-total repeats none gen_seed rep stated r = (wrapped gen_seed, refl)
scheduler_seed-total repeats (some seeds) gen_seed rep (count, _) r =
    seed_at-total repeats seeds rep count r

module _ (fl : Floats) (o : Outside fl) (c : Campaign fl.Float) where
  open fl use {Float}

  add_run-All :
      (P : Run Float → Type 0) (rep : ℕ) (gen_seed scheduler_seed : Option ℤ) (point : Point Float)
      (staleness : Float) (rs : List (Run Float)) (x : Workload Float × (Arm Float × String))
      (out : List (Run Float))
      → ((r : Run Float) → r.scheduler_seed ≡ scheduler_seed → P r)
      → All P rs
      → add_run fl o c rep gen_seed scheduler_seed point staleness rs x ≡ ok out
      → All P out
  unfolding add_run
  add_run-All P rep gen_seed scheduler_seed point staleness rs (w, (a, policy)) out good n h =
      let (resolved, first, rest) = >>=-eq-ok (resolve_point fl o c point w) _ h in
      subst (All P) (ok-injective _ _ rest) (All-append P rs _ n (good _ refl, tt))

  -- In the plan of a campaign whose seeds were checked, every run has a seed for the scheduler, in the
  -- range of the scheduler's int.
  pub plan-HasSeed :
      (runs : List (Run Float))
      → check_seeds c ≡ ok tt
      → plan fl o c ≡ ok runs
      → All (λ r. HasSeed r.scheduler_seed) runs
  unfolding plan
  plan-HasSeed runs checked h =
      let (_, _, given, stated) = (check_seeds_iff c).0 checked in
      each_keeps (All (λ r. HasSeed r.scheduler_seed)) (add_repeat fl o c)
        (λ rs rep out n h.
          let (gen_seed, scheduler_seed, first, second, h2) = seeds_of_repeat fl o c rs rep out h in
          let good =
            scheduler_seed-HasSeed c.repeats c.repeat_seeds c.scheduler_seeds rep gen_seed
              scheduler_seed given stated first second in
          add_repeat-keeps fl o c (All (λ r. HasSeed r.scheduler_seed)) rs rep out gen_seed
            scheduler_seed
            (λ point staleness rs x out n h.
              add_run-All (λ r. HasSeed r.scheduler_seed) rep gen_seed scheduler_seed point
                staleness rs x out (λ r e. subst HasSeed (sym e) good) n h)
            n h2)
        [] (rounds c.repeats) runs tt h

  -- The points of the campaign resolve for its workloads.
  abbrev pub Resolves : Type 0
  Resolves =
      (point : Point Float) (w : Workload Float)
      → IsAmong point c.points
      → IsAmong w c.workloads
      → (resolved : Point Float) × (resolve_point fl o c point w ≡ ok resolved)

  add_run-total :
      (rep : ℕ) (gen_seed scheduler_seed : Option ℤ) (point : Point Float) (staleness : Float)
      (rs : List (Run Float)) (x : Workload Float × (Arm Float × String))
      → ((resolved : Point Float) × (resolve_point fl o c point x.0 ≡ ok resolved))
      → (out : List (Run Float)) × (add_run fl o c rep gen_seed scheduler_seed point staleness rs x
          ≡ ok out)
  unfolding add_run
  add_run-total rep gen_seed scheduler_seed point staleness rs (w, (a, policy)) found =
      then-total _ _ found

  -- A campaign whose seeds were checked has a plan if its points resolve for its workloads, where a
  -- shuffle keeps the members of a list: no index of a seed is out of range.
  pub plan-total :
      KeepsMembers o
      → check_seeds c ≡ ok tt
      → Resolves
      → (runs : List (Run Float)) × (plan fl o c ≡ ok runs)
  unfolding plan
  plan-total keeps checked resolves =
      let (_, gen_stated, _, stated) = (check_seeds_iff c).0 checked in
      each-total (add_repeat fl o c) (rounds c.repeats)
        (λ rs rep among.
          let r = (IsAmong-rounds_iff rep c.repeats).0 among in
          let (gen_seed, first) = gen_seed-total c.repeats c.repeat_seeds _ rep gen_stated r in
          let (scheduler_seed, second) =
            scheduler_seed-total c.repeats c.scheduler_seeds gen_seed rep stated r in
          let (out, rest) =
            each-total (add_point fl o c rep gen_seed scheduler_seed) (sort_points fl o c.points)
              (λ rs point among.
                each-total (add_staleness fl o c rep gen_seed scheduler_seed point) c.staleness_s
                  (λ rs staleness _.
                    each-total (add_run fl o c rep gen_seed scheduler_seed point staleness)
                      (order_for fl o c rep point staleness c.workloads c.arms)
                      (λ rs (w, (a, p)) m.
                        let (known, _, _) =
                          (order_for_iff fl o c keeps rep point staleness w a p c.workloads c.arms
                              refl).0
                            m in
                        add_run-total rep gen_seed scheduler_seed point staleness rs (w, (a, p))
                          (resolves point w
                            ((IsAmong-sort_points_iff fl o c point c.points).0 among) known))
                      rs)
                  rs)
              rs in
          (out, rw (first, second) rest))
        []
