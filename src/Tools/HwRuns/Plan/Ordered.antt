-- ===== src/Tools/HwRuns/Plan/Ordered.antt =====
-- The order of the plan, from what the campaign says of loads, policies and repeats.
use mathlib.Core.List.{Perm}
use mathlib.Core.List.Perm
use llm_sched_study.Base.{
  ℕ, zero, suc, ◌+◌, ◌≡◌, refl, sym, ap, ◌∙◌, subst, inl, inr, String, none, some, List, [], ◌∷◌,
  ◌++◌, map, arith, or_else, ℤ, pos, negsuc, flat_map, All, All-imp, ok, ◌<>◌, str, if◌then◌else◌,
  false, Bool-cases, Floats,
}
use llm_sched_study.Calibration.Ranges.Extents.{Laws, IsNumber}
use llm_sched_study.Pipeline.Loadband.{sort_by_key, insert_by_key}
use llm_sched_study.Pipeline.Loadband.Sorted.{IsAscending, sort_by_key-IsAscending}
use llm_sched_study.Tools.PoolLoad.{lambda_rps, pool_utilisation, slow_node_utilisation}
use llm_sched_study.Tools.HwRuns.{Point, Arm, Workload, Campaign, Run}
use llm_sched_study.Tools.HwRuns.Plan.{
  Outside, numbers, rounds, arm_rows, product, order_of, insert_point, sort_points, order_for, plan,
}
use llm_sched_study.Tools.HwRuns.Plan.Slots.{
  Slot, slot_of, NumberedFrom, run_slot, slots, plan-slots,
}
use llm_sched_study.Tools.HwRuns.Plan.Rows.{Triple}

-- The rate of a point, or else the number of its target.
pub data HasLoad {F : Type 0} (p : Point F) (x : F) : Type 0 where
  of_rate : p.rate_scale ≡ some x → HasLoad p x
  of_lambda : p.rate_scale ≡ none → p.target ≡ some (lambda_rps x) → HasLoad p x
  of_pool : p.rate_scale ≡ none → p.target ≡ some (pool_utilisation x) → HasLoad p x
  of_slow_node : p.rate_scale ≡ none → p.target ≡ some (slow_node_utilisation x) → HasLoad p x

-- 1, 2, and so on up to `n`.
abbrev pub up_to : ℕ → List ℕ
up_to zero = []
up_to (suc n) = up_to n ++ suc n ∷ []

abbrev pub repeats_up_to : ℤ → List ℕ
repeats_up_to (pos n) = up_to n
repeats_up_to (negsuc n) = []

numbers-last : (first n : ℕ) → numbers first (suc n) ≡ numbers first n ++ (first + n) ∷ []
numbers-last first zero = ap (λ k. k ∷ []) (omega arith)
numbers-last first (suc n) =
    let shift : first + 1 + n ≡ first + suc n = omega arith in
    ap (λ ks. first ∷ ks)
      (numbers-last (first + 1) n ∙ ap (λ k. numbers (first + 1) n ++ k ∷ []) shift)

rounds-eq-repeats : (repeats : ℤ) → rounds repeats ≡ repeats_up_to repeats
rounds-eq-repeats (negsuc n) = refl
rounds-eq-repeats (pos n) = numbers-eq-up_to n
  where
    numbers-eq-up_to : (n : ℕ) → numbers 1 n ≡ up_to n
    numbers-eq-up_to zero = refl
    numbers-eq-up_to (suc n) =
        let next : 1 + n ≡ suc n = omega arith in
        numbers-last 1 n
        ∙ ap (λ ks. ks ++ (1 + n) ∷ []) (numbers-eq-up_to n)
        ∙ ap (λ k. up_to n ++ k ∷ []) next

flat_map-congr :
    {A B : Type 0} (f g : A → List B) (xs : List A)
    → ((a : A) → f a ≡ g a)
    → flat_map f xs ≡ flat_map g xs
flat_map-congr f g [] each = refl
flat_map-congr f g (x ∷ xs) each =
    ap (λ ys. ys ++ flat_map f xs) (each x) ∙ ap (λ ys. g x ++ ys) (flat_map-congr f g xs each)

module _ {F : Type 0} (c : Campaign F) where
  -- Each arm with each of its policies, for one workload.
  abbrev pub under_arms : Workload F → List (Triple F)
  under_arms w = flat_map (λ a. map (λ p. (w, (a, p))) (or_else a.policies c.policies)) c.arms

  arm_rows-eq-flat_map :
      (w : Workload F) (arms : List (Arm F))
      → arm_rows c w arms
        ≡ flat_map (λ a. map (λ p. (w, (a, p))) (or_else a.policies c.policies)) arms
  arm_rows-eq-flat_map w [] = refl
  arm_rows-eq-flat_map w (a ∷ arms) =
      ap (λ rest. map (λ p. (w, (a, p))) (or_else a.policies c.policies) ++ rest)
        (arm_rows-eq-flat_map w arms)

  product-eq-flat_map : (ws : List (Workload F)) → product c ws ≡ flat_map under_arms ws
  product-eq-flat_map [] = refl
  product-eq-flat_map (w ∷ ws) =
      ap (λ rest. arm_rows c w c.arms ++ rest) (product-eq-flat_map ws)
      ∙ ap (λ rest. rest ++ flat_map under_arms ws) (arm_rows-eq-flat_map w c.arms)

module _ (fl : Floats) (o : Outside fl) (c : Campaign fl.Float) where
  open fl use {Float, lt}

  -- No point has a smaller load than one before it.
  abbrev pub Ascends : List (Point Float) → Type 0
  Ascends [] = Unit
  Ascends (p ∷ ps) =
      All (λ q. (x y : Float) → HasLoad p x → HasLoad q y → lt y x ≡ false) ps × Ascends ps

  load : Point Float → Float
  load p = order_of fl o p.rate_scale p.target

  HasLoad-load : (p : Point Float) (x : Float) → HasLoad p x → load p ≡ x
  unfolding load
  HasLoad-load p x (of_rate e) = rw e refl
  HasLoad-load p x (of_lambda e f) = rw (e, f) refl
  HasLoad-load p x (of_pool e f) = rw (e, f) refl
  HasLoad-load p x (of_slow_node e f) = rw (e, f) refl

  insert_point-eq-insert :
      (p : Point Float) (qs : List (Point Float))
      → insert_point fl o p qs ≡ insert_by_key fl load p qs
  unfolding load
  insert_point-eq-insert p [] = refl
  insert_point-eq-insert p (q ∷ qs) =
      ap (λ rest. if lt (load q) (load p) then q ∷ rest else p ∷ q ∷ qs)
        (insert_point-eq-insert p qs)

  sort_points-eq-sort : (ps : List (Point Float)) → sort_points fl o ps ≡ sort_by_key fl load ps
  sort_points-eq-sort [] = refl
  sort_points-eq-sort (p ∷ ps) =
      ap (insert_point fl o p) (sort_points-eq-sort ps)
      ∙ insert_point-eq-insert p (sort_by_key fl load ps)

  insert_point-Perm :
      (p : Point Float) (qs : List (Point Float)) → Perm (insert_point fl o p qs) (p ∷ qs)
  insert_point-Perm p [] = Perm.refl (p ∷ [])
  insert_point-Perm p (q ∷ qs) =
      elim (Bool-cases
        (lt (order_of fl o q.rate_scale q.target) (order_of fl o p.rate_scale p.target))) [
          | inl below ↦
              rw below (Perm.trans (Perm.cons q (insert_point-Perm p qs)) (Perm.swap p q qs))
          | inr above ↦ rw above (Perm.refl (p ∷ q ∷ qs))
        ]

  sort_points-Perm : (ps : List (Point Float)) → Perm (sort_points fl o ps) ps
  sort_points-Perm [] = Perm.refl []
  sort_points-Perm (p ∷ ps) =
      Perm.trans (insert_point-Perm p (sort_points fl o ps)) (Perm.cons p (sort_points-Perm ps))

  Ascends-of_sorted : (ps : List (Point Float)) → IsAscending fl load ps → Ascends ps
  Ascends-of_sorted [] h = tt
  Ascends-of_sorted (p ∷ ps) (h, hs) = (
    All-imp _ _ ps
        (λ q unless x y has_x has_y.
          subst (λ v. lt v x ≡ false) (HasLoad-load q y has_y)
            (subst (λ v. lt (load q) v ≡ false) (HasLoad-load p x has_x) unless))
        h,
    Ascends-of_sorted ps hs,
  )

  -- The workloads with the arms and the policies, shuffled by a seed made of the tag, the repeat, the
  -- point and the staleness. One workload with one arm is run under the campaign's policies.
  abbrev pub mixed : String → List (Workload Float) → List (Arm Float) → List (Triple Float)
  mixed seed (w ∷ []) (a ∷ []) = map (λ p. (w, (a, p))) (o.shuffle String seed c.policies)
  mixed seed ws arms = o.shuffle (Triple Float) seed (flat_map (under_arms c) ws)

  abbrev pub shuffled : ℕ → Point Float → Float → List (Triple Float)
  shuffled rep point staleness =
      mixed (c.tag <> ("|" <> (str rep <> ("|" <> (point.name <> ("|" <> o.plain staleness))))))
        c.workloads c.arms

  -- What the runs are for, with the points in this order.
  abbrev pub in_order : List (Point Float) → List (Slot Float)
  in_order points =
      flat_map
        (λ rep.
          flat_map
            (λ point.
              flat_map
                (λ staleness.
                  map (run_slot fl o c rep point staleness) (shuffled rep point staleness))
                c.staleness_s)
            points)
        (repeats_up_to c.repeats)

  order_for-eq-mixed :
      (rep : ℕ) (point : Point Float) (staleness : Float) (ws : List (Workload Float))
      (arms : List (Arm Float))
      → order_for fl o c rep point staleness ws arms
        ≡ mixed
            (c.tag <> ("|" <> (str rep <> ("|" <> (point.name <> ("|" <> o.plain staleness))))))
            ws
            arms
  order_for-eq-mixed rep point staleness (w ∷ []) (a ∷ []) = refl
  order_for-eq-mixed rep point staleness [] arms =
      ap (o.shuffle (Triple Float) _) (product-eq-flat_map c [])
  order_for-eq-mixed rep point staleness (w ∷ []) [] =
      ap (o.shuffle (Triple Float) _) (product-eq-flat_map c (w ∷ []))
  order_for-eq-mixed rep point staleness (w ∷ []) (a ∷ b ∷ arms) =
      ap (o.shuffle (Triple Float) _) (product-eq-flat_map c (w ∷ []))
  order_for-eq-mixed rep point staleness (w ∷ v ∷ ws) arms =
      ap (o.shuffle (Triple Float) _) (product-eq-flat_map c (w ∷ v ∷ ws))

  slots-in_order : slots fl o c ≡ in_order (sort_points fl o c.points)
  slots-in_order =
      flat_map-congr _ _ (rounds c.repeats) (λ rep.
        flat_map-congr _ _ (sort_points fl o c.points) (λ point.
          flat_map-congr _ _ c.staleness_s (λ staleness.
            ap (map (run_slot fl o c rep point staleness))
              (order_for-eq-mixed rep point staleness c.workloads c.arms))))
      ∙ ap
          (flat_map (λ rep.
            flat_map
              (λ point.
                flat_map
                  (λ staleness.
                    map (run_slot fl o c rep point staleness) (shuffled rep point staleness))
                  c.staleness_s)
              (sort_points fl o c.points)))
          (rounds-eq-repeats c.repeats)

  -- The runs of a plan are numbered from zero, in this order: the repeats in turn from the first; in
  -- each all points of the campaign, so that no point has a smaller load than one before it, the load
  -- being the point's rate or else the number of its target; at each point the stalenesses; and for
  -- each of these the shuffled workloads, arms and policies. Supposed are three laws of comparison and
  -- that every point has a load that is not NaN.
  pub plan-Ascends :
      Laws fl
      → All (λ p. (x : Float) × HasLoad p x × IsNumber fl x) c.points
      → (runs : List (Run Float)) → plan fl o c ≡ ok runs
      → (points : List (Point Float)) × Perm points c.points
        × Ascends points
        × (map slot_of runs ≡ in_order points)
        × NumberedFrom 0 runs
  plan-Ascends laws loads runs h =
      let (in_slots, numbered) = plan-slots fl o c runs h in
      let numbers =
        All-imp _ (λ p. IsNumber fl (load p)) c.points
          (λ p (x, has_x, n). subst (IsNumber fl) (sym (HasLoad-load p x has_x)) n) loads in
      (
        sort_points fl o c.points,
        sort_points-Perm c.points,
        Ascends-of_sorted (sort_points fl o c.points) (
            subst (IsAscending fl load) (sym (sort_points-eq-sort c.points))
              (sort_by_key-IsAscending fl load laws c.points numbers)),
        in_slots ∙ slots-in_order,
        numbered,
      )
