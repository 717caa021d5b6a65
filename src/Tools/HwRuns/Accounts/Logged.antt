-- ===== src/Tools/HwRuns/Accounts/Logged.antt =====
-- The lines of the workers' logs against what the scheduler said it had sent.
use llm_sched_study.Base.{
  ℕ, ◌+◌, ◌≤◌, ◌≡◌, refl, sym, ◌∙◌, ◌↔◌, inl, inr, Bool, false, not, ◌&&◌, String, List, [], ◌∷◌,
  arith, map, keep, All, All-imp, length, truthy, count_if, or_else, Dict, lookup, lookup-insert,
  sort_by, insert_by, text_leb, ◌==◌, nat_eq, string_eq, Bool-cases,
}
use llm_sched_study.Harness.Replay.{FireRecord}
use llm_sched_study.Tools.HwRuns.Accounts.{LogCount, tally_ack, tally_acks, log_counts, incomplete}

module _ {F : Type 0} where
  -- How many requests the scheduler said it had sent to the node.
  abbrev pub acked_by : String → List (FireRecord F) → ℕ
  acked_by node_id records =
      count_if (λ r. not (r.chosen_node_from_ack == "") && r.chosen_node_from_ack == node_id)
        records

  lookup-tally_ack :
      (node_id : String) (d : Dict String ℕ) (r : FireRecord F)
      → or_else (lookup node_id (tally_ack d r)) 0
        ≡ or_else (lookup node_id d) 0 + acked_by node_id (r ∷ [])
  lookup-tally_ack node_id d r = ground (
    arith,
    string_eq.beq_iff r.chosen_node_from_ack node_id,
    lookup-insert r.chosen_node_from_ack node_id (or_else (lookup r.chosen_node_from_ack d) 0 + 1)
        d,
  )

  lookup-tally_acks :
      (node_id : String) (d : Dict String ℕ) (rs : List (FireRecord F))
      → or_else (lookup node_id (tally_acks d rs)) 0
        ≡ or_else (lookup node_id d) 0 + acked_by node_id rs
  unfolding tally_acks
  lookup-tally_acks node_id d [] = omega arith
  lookup-tally_acks node_id d (r ∷ rs) =
      lookup-tally_acks node_id (tally_ack d r) rs ∙ omega (arith, lookup-tally_ack node_id d r)

-- Sorting keeps what holds of every element.
module _ {A : Type 0} (key : A → String) (P : A → Type 0) where
  All-insert_by_iff : (a : A) (bs : List A) → All P (insert_by key a bs) ↔ (P a × All P bs)
  All-insert_by_iff a [] = (λ h. h, λ h. h)
  All-insert_by_iff a (b ∷ bs) = elim (Bool-cases (text_leb (key a) (key b))) [
    | inl e ↦ rw e (λ h. h, λ h. h)
    | inr e ↦ rw e (
      λ (h, hs). let (k, ks) = (All-insert_by_iff a bs).0 hs in (k, (h, ks)),
      λ (k, (h, ks)). (h, (All-insert_by_iff a bs).1 (k, ks)),
    )
  ]

  All-sort_by_iff : (xs : List A) → All P (sort_by key xs) ↔ All P xs
  All-sort_by_iff [] = (λ h. h, λ h. h)
  All-sort_by_iff (x ∷ xs) = (
    λ h. let (k, ks) = (All-insert_by_iff x (sort_by key xs)).0 h in (k, (All-sort_by_iff xs).0 ks),
    λ (k, ks). (All-insert_by_iff x (sort_by key xs)).1 (k, (All-sort_by_iff xs).1 ks),
  )

pub length-keep_zero_iff :
    {A : Type 0} (p : A → Bool) (xs : List A) → (length (keep p xs) ≡ 0) ↔ All (λ x. p x ≡ false) xs
length-keep_zero_iff p [] = (λ _. tt, λ _. refl)
length-keep_zero_iff p (x ∷ xs) = ground (arith, length-keep_zero_iff p xs)

pub count_if-keep-le :
    {A : Type 0} (p q : A → Bool) (xs : List A) → count_if p (keep q xs) ≤ count_if p xs
count_if-keep-le p q [] = omega arith
count_if-keep-le p q (x ∷ xs) = ground (arith, count_if-keep-le p q xs)

pub All-map_iff :
    {A B : Type 0} (f : A → B) (P : B → Type 0) (xs : List A)
    → All P (map f xs) ↔ All (λ x. P (f x)) xs
All-map_iff f P [] = (λ h. h, λ h. h)
All-map_iff f P (x ∷ xs) =
    (λ (h, hs). (h, (All-map_iff f P xs).0 hs), λ (h, hs). (h, (All-map_iff f P xs).1 hs))

length-map : {A B : Type 0} (f : A → B) (xs : List A) → length (map f xs) ≡ length xs
length-map f [] = refl
length-map f (x ∷ xs) = omega (arith, length-map f xs)

pub truthy_zero_iff : {A : Type 0} (xs : List A) → (truthy xs ≡ false) ↔ (length xs ≡ 0)
truthy_zero_iff [] = (λ _. refl, λ _. refl)
truthy_zero_iff (x ∷ xs) = (λ h. cc, λ h. absurd (omega (arith, h)))

abbrev Complete : String × LogCount → Type 0
Complete e = not (e.1.dispatched == e.1.logged) ≡ false

abbrev Logged : Dict String ℕ → String × ℕ → Type 0
Logged dispatched e = or_else (lookup e.0 dispatched) 0 ≡ e.1

abbrev entry_of : Dict String ℕ → String × ℕ → String × LogCount
entry_of dispatched (node_id, n) =
    (node_id, record { dispatched = or_else (lookup node_id dispatched) 0; logged = n })

Complete-entry_iff :
    (dispatched : Dict String ℕ) (e : String × ℕ)
    → Complete (entry_of dispatched e) ↔ Logged dispatched e
Complete-entry_iff dispatched (node_id, n) =
    ground (arith, nat_eq.beq_iff (or_else (lookup node_id dispatched) 0) n)

pub All-iff :
    {A : Type 0} (P Q : A → Type 0) (xs : List A) → ((x : A) → P x ↔ Q x) → All P xs ↔ All Q xs
All-iff P Q xs each = (All-imp P Q xs (λ x. (each x).0), All-imp Q P xs (λ x. (each x).1))

incomplete_zero_iff :
    (dispatched worker_counts : Dict String ℕ)
    → (length (incomplete (log_counts dispatched worker_counts)) ≡ 0)
      ↔ All (Logged dispatched) worker_counts
incomplete_zero_iff dispatched worker_counts =
    let sorted = sort_by (λ e. e.0) worker_counts in
    let counts = log_counts dispatched worker_counts in
    let wrong : String × LogCount → Bool = λ e. not (e.1.dispatched == e.1.logged) in
    let same_length = length-map (λ e. e.0) (keep wrong counts) in
    let none_wrong = length-keep_zero_iff wrong counts in
    let by_entry = All-map_iff (entry_of dispatched) Complete sorted in
    let by_log = All-iff _ (Logged dispatched) sorted (Complete-entry_iff dispatched) in
    let unsorted = All-sort_by_iff (λ e. e.0) (Logged dispatched) worker_counts in
    (
      λ h. unsorted.0 (by_log.0 (by_entry.0 (none_wrong.0 (sym same_length ∙ h)))),
      λ h. same_length ∙ none_wrong.1 (by_entry.1 (by_log.1 (unsorted.1 h))),
    )

module _ {F : Type 0} (records : List (FireRecord F)) where
  -- Every log has as many lines as the scheduler said it had sent requests there.
  abbrev pub LogsMatch : Dict String ℕ → Type 0
  LogsMatch worker_counts = All (λ e. acked_by e.0 records ≡ e.1) worker_counts

  pub logs_iff :
      (worker_counts : Dict String ℕ)
      → (length (incomplete (log_counts (tally_acks [] records) worker_counts)) ≡ 0)
        ↔ LogsMatch worker_counts
  logs_iff worker_counts =
      let complete = incomplete_zero_iff (tally_acks [] records) worker_counts in
      let counted =
        All-iff (Logged (tally_acks [] records)) (λ e. acked_by e.0 records ≡ e.1) worker_counts
          (λ (node_id, n). omega (arith, lookup-tally_acks node_id [] records)) in
      (λ h. counted.0 (complete.0 h), λ h. complete.1 (counted.1 h))
