-- ===== src/Harness/Clocksync/Factors.antt =====
-- Which hosts have a factor: never the reference, never a host without a clock estimate.
use llm_sched_study.Base.{
  ◌≡◌, refl, sym, subst, ◌↔◌, ◌≢◌, inl, inr, true, false, String, Option, none, some, [], ◌∷◌,
  arith, string_eq, if◌then◌else◌, Dict, lookup, insert, IsDict, lookup-insert, Floats, Bool-cases,
  Option-cases,
}
use llm_sched_study.Harness.Manifest.{HostEntry, ClockBlock}
use llm_sched_study.Harness.Clocksync.{is_rescaled, factor, collect_factors, rate_factors}

module _ (fl : Floats) where
  open fl use {Float, of_nat, add, sub, mul, feq, decimal}

  -- What the clock block says of one host.
  abbrev pub expected : String → HostEntry Float → String → Option (HostEntry Float) → Option Float
  expected reference ref host none = none
  expected reference ref host (some clock) =
      if is_rescaled fl reference ref host clock then some (factor fl ref clock) else none

  lookup-collect_factors :
      (reference : String) (ref : HostEntry Float) (host : String) (factors : Dict String Float)
      (hosts : Dict String (HostEntry Float))
      → IsDict hosts
      → lookup host (collect_factors fl reference ref factors hosts)
        ≡ (elim (expected reference ref host (lookup host hosts)) [
          | some f ↦ some f
          | none ↦ lookup host factors
        ])
  unfolding collect_factors
  lookup-collect_factors reference ref host factors [] h = refl
  lookup-collect_factors reference ref host factors ((h1, clock) ∷ hosts) (fresh, h) =
      elim (Bool-cases (is_rescaled fl reference ref h1 clock)) [
        | inl rescaled ↦ ground (
          arith,
          string_eq.beq_iff h1 host,
          lookup-collect_factors reference ref host (insert h1 (factor fl ref clock) factors) hosts
              h,
          lookup-insert h1 host (factor fl ref clock) factors,
        )
        | inr plain ↦ ground (
          arith,
          string_eq.beq_iff h1 host,
          lookup-collect_factors reference ref host factors hosts h,
        )
      ]

  -- `f` is the factor of the host: both entries are synchronised, the host is not the reference, and
  -- their rates, which are given in parts per million, differ; it is one plus their difference.
  abbrev pub IsFactor : String → HostEntry Float → String → HostEntry Float → Float → Type 0
  IsFactor reference ref host clock f =
      (ref.synchronised ≡ true)
      × (clock.synchronised ≡ true)
      × (host ≢ reference)
      × (feq (sub clock.rate_error_ppm ref.rate_error_ppm) (of_nat 0) ≡ false)
      × (f ≡ add (of_nat 1) (mul (sub clock.rate_error_ppm ref.rate_error_ppm) (decimal 1 6)))

  abbrev answer :
      String → String → Option (HostEntry Float) → Option (HostEntry Float) → Option Float
  answer reference host none clock = none
  answer reference host (some ref) clock =
      if ref.synchronised then expected reference ref host clock else none

  some-IsFactor :
      (reference : String) (ref : HostEntry Float) (host : String) (clock : HostEntry Float)
      (f : Float)
      → (answer reference host (some ref) (some clock) ≡ some f)
        ↔ IsFactor reference ref host clock f
  some-IsFactor reference ref host clock f = ground (arith, string_eq.beq_iff host reference)

  answer_iff :
      (reference host : String) (o p : Option (HostEntry Float)) (f : Float)
      → (answer reference host o p ≡ some f) ↔ (
          (ref : HostEntry Float) × (clock : HostEntry Float) × (o ≡ some ref)
          × (p ≡ some clock)
          × IsFactor reference ref host clock f)
  answer_iff reference host none p f = (λ h. cc, λ (ref, clock, h, _, _). cc)
  answer_iff reference host (some ref) none f = (λ h. ground arith, λ (ref1, clock, _, h, _). cc)
  answer_iff reference host (some ref) (some clock) f = (
    λ h. (ref, clock, refl, refl, (some-IsFactor reference ref host clock f).0 h),
    λ (ref1, clock1, a, b, h).
        let r : ref ≡ ref1 = cc in
        let c : clock ≡ clock1 = cc in (some-IsFactor reference ref host clock f).1 (rw (r, c) h),
  )

  lookup-answer :
      (sync : ClockBlock Float) (host : String)
      → IsDict sync.hosts
      → lookup host (rate_factors fl (some sync))
        ≡ answer sync.reference host (lookup sync.reference sync.hosts) (lookup host sync.hosts)
  unfolding rate_factors
  lookup-answer sync host h = elim (Option-cases (lookup sync.reference sync.hosts)) [
    | inl e ↦ rw (e, rate_factors) refl
    | inr (ref, e) ↦
        rw (e, rate_factors)
          (ground (arith, lookup-collect_factors sync.reference ref host [] sync.hosts h))
  ]

  -- A host has a factor `f` exactly if the reference host and the host both have a synchronised
  -- entry, the host is not the reference, its rate error less the reference's is not 0 ppm, and `f` is
  -- 1 plus that difference times a millionth. The dict of hosts is supposed to hold no key twice.
  pub lookup-rate_factors :
      (sync : ClockBlock Float) (host : String) (f : Float)
      → IsDict sync.hosts
      → (lookup host (rate_factors fl (some sync)) ≡ some f) ↔ (
          (ref : HostEntry Float) × (clock : HostEntry Float) × (lookup sync.reference sync.hosts
            ≡ some ref)
          × (lookup host sync.hosts ≡ some clock)
          × IsFactor sync.reference ref host clock f)
  lookup-rate_factors sync host f h =
      subst
        (λ o. (o ≡ some f) ↔ (
          (ref : HostEntry Float) × (clock : HostEntry Float) × (lookup sync.reference sync.hosts
            ≡ some ref)
          × (lookup host sync.hosts ≡ some clock)
          × IsFactor sync.reference ref host clock f))
        (sym (lookup-answer sync host h)) (answer_iff sync.reference host _ _ f)
