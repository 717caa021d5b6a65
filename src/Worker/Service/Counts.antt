-- ===== src/Worker/Service/Counts.antt =====
-- Counting and testing the tasks of a service around the one that moves.
use llm_sched_study.Base.{
  ◌+◌, ◌≡◌, refl, subst, Bool, true, false, List, [], ◌∷◌, ◌++◌, map, arith, if◌then◌else◌,
  count_if, count_if-append, All, All-append,
}
use llm_sched_study.Worker.Service.{Phase, waiting, probing, serving, delivering, Task, cancel}

module _ {F : Type 0} where
  abbrev pub waits : Task F → Bool
  waits t = elim t.phase [ waiting _ ↦ true | _ ↦ false ]

  -- Holds a permit of the semaphore.
  abbrev pub holds : Task F → Bool
  holds t = elim t.phase [ probing _ ↦ true | serving _ _ ↦ true | _ ↦ false ]

  abbrev pub serves : Task F → Bool
  serves t = elim t.phase [ serving _ _ ↦ true | _ ↦ false ]

  abbrev pub delivers : Task F → Bool
  delivers t = elim t.phase [ delivering _ _ _ ↦ true | _ ↦ false ]

pub All-split :
    {A : Type 0} (P : A → Type 0) (pre post : List A) (x : A)
    → All P (pre ++ x ∷ post)
    → All P pre × P x × All P post
All-split P [] post x (h, hs) = (tt, h, hs)
All-split P (y ∷ pre) post x (h, hs) =
    let (before, here, after) = All-split P pre post x hs in ((h, before), here, after)

-- The task `x` between `pre` and `post` is replaced by the tasks of `mid`.
module _ {A : Type 0} (pre mid post : List A) (x : A) {xs : List A} (e : xs ≡ pre ++ x ∷ post) where
  count_move :
      (p : A → Bool)
      → count_if p (pre ++ (mid ++ post)) + (if p x then 1 else 0) ≡ count_if p xs + count_if p mid
  count_move p = rw e (
      omega (
        arith,
        count_if-append p pre (x ∷ post),
        count_if-append p pre (mid ++ post),
        count_if-append p mid post,
      ))

  pub All-move : (P : A → Type 0) → All P xs → (P x → All P mid) → All P (pre ++ (mid ++ post))
  All-move P h new =
      let (before, here, after) = All-split P pre post x (subst (All P) e h) in
      All-append P pre (mid ++ post) before (All-append P mid post (new here) after)

-- The four counts of the invariant, when one task moves.
pub counts_move :
    {F : Type 0} (pre mid post : List (Task F)) (x : Task F) {xs : List (Task F)}
    → xs ≡ pre ++ x ∷ post
    → (count_if waits (pre ++ (mid ++ post)) + (if waits x then 1 else 0)
        ≡ count_if waits xs + count_if waits mid)
      × (count_if holds (pre ++ (mid ++ post)) + (if holds x then 1 else 0)
          ≡ count_if holds xs + count_if holds mid)
      × (count_if serves (pre ++ (mid ++ post)) + (if serves x then 1 else 0)
          ≡ count_if serves xs + count_if serves mid)
      × (count_if delivers (pre ++ (mid ++ post)) + (if delivers x then 1 else 0)
          ≡ count_if delivers xs + count_if delivers mid)
counts_move pre mid post x e = (
  count_move pre mid post x e waits,
  count_move pre mid post x e holds,
  count_move pre mid post x e serves,
  count_move pre mid post x e delivers,
)

-- A test of the phase alone is not changed by cancelling.
count_if-cancel :
    {F : Type 0} (p : Phase F → Bool) (ts : List (Task F))
    → count_if (λ t. p t.phase) (map cancel ts) ≡ count_if (λ t. p t.phase) ts
unfolding cancel
count_if-cancel p [] = refl
count_if-cancel p (t ∷ ts) = omega (arith, count_if-cancel p ts)

pub counts_cancel :
    {F : Type 0} (ts : List (Task F))
    → (count_if waits (map cancel ts) ≡ count_if waits ts)
      × (count_if holds (map cancel ts) ≡ count_if holds ts)
      × (count_if serves (map cancel ts) ≡ count_if serves ts)
      × (count_if delivers (map cancel ts) ≡ count_if delivers ts)
counts_cancel ts = (
  count_if-cancel (λ p. elim p [ waiting _ ↦ true | _ ↦ false ]) ts,
  count_if-cancel (λ p. elim p [ probing _ ↦ true | serving _ _ ↦ true | _ ↦ false ]) ts,
  count_if-cancel (λ p. elim p [ serving _ _ ↦ true | _ ↦ false ]) ts,
  count_if-cancel (λ p. elim p [ delivering _ _ _ ↦ true | _ ↦ false ]) ts,
)
