-- ===== src/Harness/Clocksync/Hosts/Combined.antt =====
-- What the combined block holds of the clocks that it was made from.
use llm_sched_study.Base.{
  ℕ, suc, ◌+◌, ◌≤◌, ◌↔◌, ◌≡◌, ◌≢◌, refl, subst, Bool, true, false, not, String, Option, none, some,
  List, [], ◌∷◌, arith, ◌==◌, string_eq, nat_eq, if◌then◌else◌, ltb, map, elem, Distinct, length,
  All, Dict, lookup, insert, IsDict, lookup-insert, insert-IsDict, ok, err, raise_if, ◌>>◌, Floats,
}
use llm_sched_study.Harness.Clocksync.Hosts.{
  HostClock, ClockSync, by_host, latest_unix, chosen_reference, combine, no_hosts, twice,
}

module _ {V : Type 0} where
  length-insert :
      (k : String) (v : V) (d : Dict String V)
      → (length (insert k v d) ≤ suc (length d))
        × (length (insert k v d) ≡ suc (length d) → lookup k d ≡ none)
  length-insert k v [] = ground arith
  length-insert k v ((j, w) ∷ d) = ground (arith, length-insert k v d)

module _ (fl : Floats) where
  open fl use {Float}

  length-by_host :
      (d : Dict String (HostClock Float)) (cs : List (HostClock Float))
      → length (by_host fl d cs) ≤ length d + length cs
  unfolding by_host
  length-by_host d [] = omega arith
  length-by_host d (c ∷ cs) =
      omega (arith, length-by_host (insert c.host c d) cs, (length-insert c.host c d).0)

  abbrev pub hosts_of : List (HostClock Float) → List String
  hosts_of cs = map (λ c. c.host) cs

  abbrev FreshIn : Dict String (HostClock Float) → List (HostClock Float) → Type 0
  FreshIn d = All (λ c. lookup c.host d ≡ none)

  FreshIn-insert :
      (c : HostClock Float) (d : Dict String (HostClock Float)) (cs : List (HostClock Float))
      → (FreshIn d cs × (elem c.host (hosts_of cs) ≡ false)) ↔ FreshIn (insert c.host c d) cs
  FreshIn-insert c d [] = (λ _. tt, λ _. (tt, refl))
  FreshIn-insert c d (x ∷ cs) = ground (
    arith,
    FreshIn-insert c d cs,
    lookup-insert c.host x.host c d,
    string_eq.beq_iff c.host x.host,
    string_eq.beq_iff x.host c.host,
  )

  -- A dict that has the entries of `d`, and of each clock its own.
  abbrev Holds :
      Dict String (HostClock Float)
      → List (HostClock Float)
      → Dict String (HostClock Float)
      → Type 0
  Holds d cs result =
      IsDict result
      × ((k : String) (v : HostClock Float) → lookup k d ≡ some v → lookup k result ≡ some v)
      × FreshIn d cs
      × Distinct (hosts_of cs)
      × All (λ c. lookup c.host result ≡ some c) cs

  by_host-Holds :
      (d : Dict String (HostClock Float)) (cs : List (HostClock Float))
      → IsDict d
      → length (by_host fl d cs) ≡ length d + length cs
      → Holds d cs (by_host fl d cs)
  unfolding by_host
  by_host-Holds d [] dict full = (dict, λ k v e. e, tt, tt, tt)
  by_host-Holds d (c ∷ cs) dict full =
      let d1 = insert c.host c d in
      let (most, new) = length-insert c.host c d in
      let fresh : lookup c.host d ≡ none = new (omega (arith, full, most, length-by_host d1 cs)) in
      let (dict1, kept, later, apart, own) =
        by_host-Holds d1 cs (insert-IsDict c.host c d dict)
          (omega (arith, full, most, length-by_host d1 cs)) in
      let (later_d, other) = (FreshIn-insert c d cs).1 later in
      (
        dict1,
        λ k v e.
            kept k v
              (ground (arith, lookup-insert c.host k c d, string_eq.beq_iff c.host k, fresh, e)),
        (fresh, later_d),
        (other, apart),
        (
          kept c.host c
              (ground (arith, lookup-insert c.host c.host c d, string_eq.beq_iff c.host c.host)),
          own,
        ),
      )

  length-insert_fresh :
      (k : String) (v : HostClock Float) (d : Dict String (HostClock Float))
      → lookup k d ≡ none
      → length (insert k v d) ≡ suc (length d)
  length-insert_fresh k v [] h = refl
  length-insert_fresh k v ((j, w) ∷ d) h = ground (arith, length-insert_fresh k v d)

  by_host-Distinct :
      (d : Dict String (HostClock Float)) (cs : List (HostClock Float))
      → FreshIn d cs
      → Distinct (hosts_of cs)
      → length (by_host fl d cs) ≡ length d + length cs
  unfolding by_host
  by_host-Distinct d [] fresh apart = omega arith
  by_host-Distinct d (c ∷ cs) (fresh, later) (other, apart) = omega (
    arith,
    by_host-Distinct (insert c.host c d) cs ((FreshIn-insert c d cs).0 (later, other)) apart,
    length-insert_fresh c.host c d fresh,
  )

  FreshIn-empty : (cs : List (HostClock Float)) → FreshIn [] cs
  FreshIn-empty [] = tt
  FreshIn-empty (c ∷ cs) = (refl, FreshIn-empty cs)

  full_iff :
      (cs : List (HostClock Float))
      → (length (by_host fl [] cs) ≡ length cs) ↔ Distinct (hosts_of cs)
  full_iff cs = (
    λ full. (by_host-Holds [] cs tt (omega (arith, full))).3,
    λ apart. omega (arith, by_host-Distinct [] cs (FreshIn-empty cs) apart),
  )

  latest_unix-le :
      (m : ℕ) (cs : List (HostClock Float))
      → (m ≤ latest_unix fl m cs) × All (λ c. c.measured_unix ≤ latest_unix fl m cs) cs
  latest_unix-le m [] = (omega arith, tt)
  latest_unix-le m (c ∷ cs) =
      let (above, all_above) =
        latest_unix-le (if ltb m c.measured_unix then c.measured_unix else m) cs in
      (ground (arith, above), (ground (arith, above), all_above))

  checked :
      (full : Bool) (x : ClockSync Float)
      → ((raise_if (not full) twice >> ok x) ≢ err no_hosts)
        × (((raise_if (not full) twice >> ok x) ≡ err twice) ↔ (full ≡ false))
        × ((y : ClockSync Float)
            → (raise_if (not full) twice >> ok x) ≡ ok y
            → (full ≡ true) × (x ≡ y))
  checked true x = (λ h. cc, (λ h. cc, λ h. cc), λ y h. (refl, cc))
  checked false x = (λ h. cc, (λ _. refl, λ _. refl), λ y h. cc)

  -- Clocks are refused exactly if there are none, or if there are some and two are of one host.
  -- Otherwise the combined block has as many entries as there are clocks, each clock as its host's,
  -- and a time of measurement that none of them is after.
  pub combine-cases :
      (clocks : List (HostClock Float)) (reference : Option String)
      → ((combine fl clocks reference ≡ err no_hosts) ↔ (clocks ≡ []))
        × ((combine fl clocks reference ≡ err twice)
            ↔ (clocks ≢ [] × (Distinct (hosts_of clocks) → ⊥)))
        × ((s : ClockSync Float)
            → combine fl clocks reference ≡ ok s
            → IsDict s.hosts
              × (length s.hosts ≡ length clocks)
              × All (λ c. lookup c.host s.hosts ≡ some c) clocks
              × All (λ c. c.measured_unix ≤ s.measured_unix) clocks)
  unfolding combine
  combine-cases [] reference =
      ((λ _. refl, λ _. refl), (λ h. cc, λ (h, _). absurd (h refl)), λ s h. cc)
  combine-cases (c ∷ cs) reference =
      let hosts = by_host fl [] (c ∷ cs) in
      let full = length hosts == length (c ∷ cs) in
      let block : ClockSync Float = record {
        reference = chosen_reference fl reference c.host;
        hosts = hosts;
        measured_unix = latest_unix fl c.measured_unix cs;
      } in
      let (never, refused, made) = checked full block in
      let full_at = nat_eq.beq_iff (length hosts) (length (c ∷ cs)) in
      (
        (λ h. absurd (never h), λ h. cc),
        (
          λ h. (λ e. cc, λ apart. cc (refused.0 h, full_at.1 ((full_iff (c ∷ cs)).1 apart))),
          λ (_, not_apart). refused.1 (ground (arith, not_apart, full_at, full_iff (c ∷ cs))),
        ),
        λ s h.
            let (is_full, same) = made s h in
            let as_many = full_at.0 is_full in
            let (dict, _, _, _, own) = by_host-Holds [] (c ∷ cs) tt (omega (arith, as_many)) in
            subst
              (λ b.
                IsDict b.hosts
                × (length b.hosts ≡ length (c ∷ cs))
                × All (λ x. lookup x.host b.hosts ≡ some x) (c ∷ cs)
                × All (λ x. x.measured_unix ≤ b.measured_unix) (c ∷ cs))
              same (dict, as_many, own, latest_unix-le c.measured_unix cs),
      )
