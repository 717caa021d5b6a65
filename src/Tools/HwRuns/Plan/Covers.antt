-- ===== src/Tools/HwRuns/Plan/Covers.antt =====
-- Which runs the plan holds, as a set, and what seeds they have.
use llm_sched_study.Base.{
  ℕ, ◌≡◌, refl, sym, ap, subst, ◌↔◌, ◌⊎◌, inl, inr, String, List, [], ◌∷◌, map, IsAmong,
  IsAmong-map_iff, IsAmong-flat_map_iff, flat_map, ok, Floats, Bool-cases,
}
use llm_sched_study.Tools.HwRuns.{Point, Arm, Workload, Campaign, Run}
use llm_sched_study.Tools.HwRuns.Plan.{
  Outside, rounds, policies_of, product, insert_point, sort_points, order_of, shuffle_seed,
  order_for, plan,
}
use llm_sched_study.Tools.HwRuns.Plan.Slots.{Slot, slot_of, run_slot, point_slots, plan-slots}
use llm_sched_study.Tools.HwRuns.Plan.Rows.{
  IsRepeat, IsAmong-rounds_iff, only, Triple, planned_policies, IsAmong-product_iff,
}

-- `random.shuffle` changes the order of a list and nothing else: what is in it stays in it, and
-- nothing comes to it.
abbrev pub KeepsMembers : {fl : Floats} → Outside fl → Type 1
KeepsMembers o =
    (A : Type 0) (seed : String) (x : A) (xs : List A)
    → IsAmong x (o.shuffle A seed xs) ↔ IsAmong x xs

module _ (fl : Floats) (o : Outside fl) (c : Campaign fl.Float) where
  open fl use {Float}

  IsAmong-insert_point_iff :
      (x p : Point Float) (ps : List (Point Float))
      → IsAmong x (insert_point fl o p ps) ↔ ((x ≡ p) ⊎ IsAmong x ps)
  IsAmong-insert_point_iff x p [] = (λ m. m, λ m. m)
  IsAmong-insert_point_iff x p (q ∷ qs) =
      let rest = IsAmong-insert_point_iff x p qs in
      elim (Bool-cases
        (fl.lt (order_of fl o q.rate_scale q.target) (order_of fl o p.rate_scale p.target))) [
          | inl e ↦ rw e (
            λ m. elim m [
              | inl here ↦ inr (inl here)
              | inr m ↦ elim (rest.0 m) [ inl here ↦ inl here | inr m ↦ inr (inr m) ]
            ],
            λ m. elim m [
              | inl here ↦ inr (rest.1 (inl here))
              | inr m ↦ elim m [ inl here ↦ inl here | inr m ↦ inr (rest.1 (inr m)) ]
            ],
          )
          | inr e ↦ rw e (λ m. m, λ m. m)
        ]

  pub IsAmong-sort_points_iff :
      (x : Point Float) (ps : List (Point Float)) → IsAmong x (sort_points fl o ps) ↔ IsAmong x ps
  IsAmong-sort_points_iff x [] = (λ m. m, λ m. m)
  IsAmong-sort_points_iff x (p ∷ ps) =
      let rest = IsAmong-sort_points_iff x ps in
      let placed = IsAmong-insert_point_iff x p (sort_points fl o ps) in
      (
        λ m. elim (placed.0 m) [ inl here ↦ inl here | inr m ↦ inr (rest.0 m) ],
        λ m. placed.1 (elim m [ inl here ↦ inl here | inr m ↦ inr (rest.1 m) ]),
      )

  -- What the campaign file asks for.
  abbrev pub IsAsked : Slot Float → Type 0
  IsAsked slot =
      IsRepeat c.repeats slot.repeat
      × ((point : Point Float) × IsAmong point c.points × (slot.point ≡ point.name))
      × IsAmong slot.staleness_s c.staleness_s
      × IsAmong slot.workload c.workloads
      × IsAmong slot.arm c.arms
      × IsAmong slot.policy (planned_policies c c.workloads c.arms slot.arm)

  abbrev IsAskedAt : ℕ → Point Float → Slot Float → Type 0
  IsAskedAt rep point slot =
      (slot.repeat ≡ rep)
      × (slot.point ≡ point.name)
      × IsAmong slot.staleness_s c.staleness_s
      × IsAmong slot.workload c.workloads
      × IsAmong slot.arm c.arms
      × IsAmong slot.policy (planned_policies c c.workloads c.arms slot.arm)

  module _ (keeps : KeepsMembers o) where
    alone_iff :
        (v w : Workload Float) (a b : Arm Float) (p : String) (seed : String)
        → IsAmong {A = Triple _}
            (v, (a, p))
            (map (λ q. (w, (b, q))) (o.shuffle String seed c.policies))
          ↔ (IsAmong v (w ∷ []) × IsAmong a (b ∷ []) × IsAmong p c.policies)
    alone_iff v w a b p seed =
        let here =
          IsAmong-map_iff {B = Triple _} (λ q. (w, (b, q))) (v, (a, p))
            (o.shuffle String seed c.policies) in
        (
          λ m.
              let (q, among, e) = here.0 m in
              (
                inl (ap (λ x. x.0) e),
                inl (ap (λ x. x.1.0) e),
                subst (λ y. IsAmong y c.policies) (ap (λ x. x.1.1) (sym e))
                    ((keeps String seed q c.policies).0 among),
              ),
          λ (one, two, among).
              here.1 (p, (keeps String seed p c.policies).1 among, cc (only v w one, only a b two)),
        )

    shuffled_iff :
        (v : Workload Float) (a : Arm Float) (p : String) (ws : List (Workload Float))
        (arms : List (Arm Float)) (seed : String)
        → arms ≡ c.arms
        → IsAmong {A = Triple _} (v, (a, p)) (o.shuffle (Triple Float) seed (product c ws))
          ↔ (IsAmong v ws × IsAmong a arms × IsAmong p (policies_of c a))
    shuffled_iff v a p ws arms seed e =
        let shuffled = keeps (Triple Float) seed (v, (a, p)) (product c ws) in
        let here = IsAmong-product_iff c v a p ws in
        (
          λ m. let (i, j, k) = here.0 (shuffled.0 m) in (i, subst (IsAmong a) (sym e) j, k),
          λ (i, j, k). shuffled.1 (here.1 (i, subst (IsAmong a) e j, k)),
        )

    pub order_for_iff :
        (rep : ℕ) (point : Point Float) (staleness : Float) (v : Workload Float) (a : Arm Float)
        (p : String) (ws : List (Workload Float)) (arms : List (Arm Float))
        → arms ≡ c.arms
        → IsAmong {A = Triple _} (v, (a, p)) (order_for fl o c rep point staleness ws arms)
          ↔ (IsAmong v ws × IsAmong a arms × IsAmong p (planned_policies c ws arms a))
    order_for_iff rep point staleness v a p (w ∷ []) (b ∷ []) e =
        alone_iff v w a b p (shuffle_seed fl o c rep point staleness)
    order_for_iff rep point staleness v a p [] arms e =
        shuffled_iff v a p [] arms (shuffle_seed fl o c rep point staleness) e
    order_for_iff rep point staleness v a p (w ∷ []) [] e =
        shuffled_iff v a p (w ∷ []) [] (shuffle_seed fl o c rep point staleness) e
    order_for_iff rep point staleness v a p (w ∷ []) (b ∷ b' ∷ bs) e =
        shuffled_iff v a p (w ∷ []) (b ∷ b' ∷ bs) (shuffle_seed fl o c rep point staleness) e
    order_for_iff rep point staleness v a p (w ∷ w' ∷ ws) arms e =
        shuffled_iff v a p (w ∷ w' ∷ ws) arms (shuffle_seed fl o c rep point staleness) e

    point_slots_iff :
        (slot : Slot Float) (rep : ℕ) (point : Point Float)
        → IsAmong slot (point_slots fl o c rep point) ↔ IsAskedAt rep point slot
    point_slots_iff slot rep point =
        let outer =
          IsAmong-flat_map_iff
            (λ staleness.
              map (run_slot fl o c rep point staleness)
                (order_for fl o c rep point staleness c.workloads c.arms))
            slot c.staleness_s in
        (
          λ m.
              let (staleness, among, m') = outer.0 m in
              let ((w, (a, p)), m'', e) =
                (IsAmong-map_iff (run_slot fl o c rep point staleness) slot
                    (order_for fl o c rep point staleness c.workloads c.arms)).0
                  m' in
              let (i, j, k) =
                (order_for_iff rep point staleness w a p c.workloads c.arms refl).0 m'' in
              subst (IsAskedAt rep point) (sym e) (refl, refl, among, i, j, k),
          λ (r, n, i, j, k, l). outer.1 (
            slot.staleness_s,
            i,
            (IsAmong-map_iff (run_slot fl o c rep point slot.staleness_s) slot
                  (order_for fl o c rep point slot.staleness_s c.workloads c.arms)).1
                (
                  (slot.workload, (slot.arm, slot.policy)),
                  (order_for_iff rep point slot.staleness_s slot.workload slot.arm slot.policy
                        c.workloads c.arms refl).1
                      (j, k, l),
                  cc (r, n),
                ),
          ),
        )

    -- The plan holds a run for a repeat, a point, a staleness, a workload, an arm and a policy exactly
    -- if the campaign asks for each of them, where a shuffle keeps the members of a list. The policies
    -- asked for are those of the arm, but those of the campaign where it has one workload and one arm.
    pub plan-covers_iff :
        (runs : List (Run Float)) (slot : Slot Float)
        → plan fl o c ≡ ok runs
        → IsAmong slot (map slot_of runs) ↔ IsAsked slot
    plan-covers_iff runs slot h =
        let (same, _) = plan-slots fl o c runs h in
        let by_repeat =
          IsAmong-flat_map_iff
            (λ rep. flat_map (point_slots fl o c rep) (sort_points fl o c.points)) slot
            (rounds c.repeats) in
        (
          λ m.
              let (rep, r, m') = by_repeat.0 (subst (IsAmong slot) same m) in
              let (point, q, m'') =
                (IsAmong-flat_map_iff (point_slots fl o c rep) slot (sort_points fl o c.points)).0
                  m' in
              let (e, n, i, j, k, l) = (point_slots_iff slot rep point).0 m'' in
              (
                subst (IsRepeat c.repeats) (sym e) ((IsAmong-rounds_iff rep c.repeats).0 r),
                (point, (IsAmong-sort_points_iff point c.points).0 q, n),
                i,
                j,
                k,
                l,
              ),
          λ (r, (point, q, n), i, j, k, l). subst (IsAmong slot) (sym same) (
              by_repeat.1 (
                slot.repeat,
                (IsAmong-rounds_iff slot.repeat c.repeats).1 r,
                (IsAmong-flat_map_iff (point_slots fl o c slot.repeat) slot
                      (sort_points fl o c.points)).1
                    (
                      point,
                      (IsAmong-sort_points_iff point c.points).1 q,
                      (point_slots_iff slot slot.repeat point).1 (refl, n, i, j, k, l),
                    ),
              )),
        )
