-- ===== src/Tools/HwRuns/Plan/Rows.antt =====
-- What the comprehensions of the plan range over.
use llm_sched_study.Base.{
  ℕ, zero, suc, ◌+◌, ◌≤◌, ◌<◌, ◌≡◌, sym, ap, subst, ◌↔◌, inl, inr, String, List, [], ◌∷◌, map,
  arith, IsAmong, IsAmong-append_iff, IsAmong-map_iff, ℤ, pos, negsuc, dec_lt,
}
use llm_sched_study.Tools.HwRuns.{Arm, Workload, Campaign}
use llm_sched_study.Tools.HwRuns.Plan.{numbers, rounds, policies_of, arm_rows, product}

IsAmong-numbers_iff :
    (k first n : ℕ) → IsAmong k (numbers first n) ↔ ((first ≤ k) × (k < first + n))
IsAmong-numbers_iff k first zero = (λ m. absurd m, λ h. absurd (omega (arith, h)))
IsAmong-numbers_iff k first (suc n) = (
  λ m. elim m [
    | inl e ↦ omega arith
    | inr m ↦ let (a, b) = (IsAmong-numbers_iff k (first + 1) n).0 m in omega arith
  ],
  λ (a, b). elim (dec_lt first k) [
    | yes later ↦ inr ((IsAmong-numbers_iff k (first + 1) n).1 (omega arith))
    | no here ↦ inl (omega arith)
  ],
)

-- `1 <= rep <= repeats`
abbrev pub IsRepeat : ℤ → ℕ → Type 0
IsRepeat (pos n) rep = (1 ≤ rep) × (rep ≤ n)
IsRepeat (negsuc n) rep = ⊥

pub IsAmong-rounds_iff :
    (rep : ℕ) (repeats : ℤ) → IsAmong rep (rounds repeats) ↔ IsRepeat repeats rep
IsAmong-rounds_iff rep (negsuc n) = (λ m. m, λ m. m)
IsAmong-rounds_iff rep (pos n) =
    let both = IsAmong-numbers_iff rep 1 n in
    (λ m. let (a, b) = both.0 m in (a, omega arith), λ (a, b). both.1 (a, omega arith))

pub only : {A : Type 0} (x y : A) → IsAmong x (y ∷ []) → x ≡ y
only x y (inl e) = e
only x y (inr m) = absurd m

abbrev pub Triple : Type 0 → Type 0
Triple F = Workload F × (Arm F × String)

module _ {F : Type 0} (c : Campaign F) where
  -- The policies that the plan runs an arm under: the arm's own, unless the campaign has one workload
  -- and one arm.
  abbrev pub planned_policies : List (Workload F) → List (Arm F) → Arm F → List String
  planned_policies (w ∷ []) (b ∷ []) a = c.policies
  planned_policies ws arms a = policies_of c a

  IsAmong-arm_rows_iff :
      (v w : Workload F) (a : Arm F) (p : String) (arms : List (Arm F))
      → IsAmong {A = Triple _} (v, (a, p)) (arm_rows c w arms)
        ↔ ((v ≡ w) × IsAmong a arms × IsAmong p (policies_of c a))
  IsAmong-arm_rows_iff v w a p [] = (λ m. absurd m, λ (_, m, _). absurd m)
  IsAmong-arm_rows_iff v w a p (b ∷ arms) =
      let here = IsAmong-map_iff {B = Triple _} (λ q. (w, (b, q))) (v, (a, p)) (policies_of c b) in
      let later = IsAmong-arm_rows_iff v w a p arms in
      let both =
        IsAmong-append_iff {A = Triple F} (v, (a, p)) (map (λ q. (w, (b, q))) (policies_of c b))
          (arm_rows c w arms) in
      (
        λ m. elim (both.0 m) [
          | inl m ↦
              let (q, among, e) = here.0 m in
              let same_arm : a ≡ b = ap (λ x. x.1.0) e in
              let same_policy : q ≡ p = ap (λ x. x.1.1) (sym e) in
              (
                ap (λ x. x.0) e,
                inl same_arm,
                subst (λ y. IsAmong p (policies_of c y)) (sym same_arm)
                    (subst (λ y. IsAmong y (policies_of c b)) same_policy among),
              )
          | inr m ↦ let (e, among, k) = later.0 m in (e, inr among, k)
        ],
        λ (e, among, k). both.1 (elim among [
          | inl same_arm ↦
              inl
                (here.1 (p, subst (λ y. IsAmong p (policies_of c y)) same_arm k, cc (e, same_arm)))
          | inr among ↦ inr (later.1 (e, among, k))
        ]),
      )

  pub IsAmong-product_iff :
      (v : Workload F) (a : Arm F) (p : String) (ws : List (Workload F))
      → IsAmong {A = Triple _} (v, (a, p)) (product c ws)
        ↔ (IsAmong v ws × IsAmong a c.arms × IsAmong p (policies_of c a))
  IsAmong-product_iff v a p [] = (λ m. absurd m, λ (m, _, _). absurd m)
  IsAmong-product_iff v a p (w ∷ ws) =
      let here = IsAmong-arm_rows_iff v w a p c.arms in
      let later = IsAmong-product_iff v a p ws in
      let both =
        IsAmong-append_iff {A = Triple F} (v, (a, p)) (arm_rows c w c.arms) (product c ws) in
      (
        λ m. elim (both.0 m) [
          | inl m ↦ let (e, among, k) = here.0 m in (inl e, among, k)
          | inr m ↦ let (e, among, k) = later.0 m in (inr e, among, k)
        ],
        λ (e, among, k).
            both.1
              (elim e [ inl e ↦ inl (here.1 (e, among, k)) | inr e ↦ inr (later.1 (e, among, k)) ]),
      )
