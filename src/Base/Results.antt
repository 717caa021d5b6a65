-- ===== src/Base/Results.antt =====
-- Python calls that may raise: a result that is a value or the exception.
use mathlib.Core.Path.{◌≡◌, refl}
use mathlib.Core.Logic.{◌↔◌}
use mathlib.Core.Bool.{Bool, true, false}
use mathlib.Core.Option.{Option, none, some}
use mathlib.Core.List.{List, [], ◌∷◌}

pub data Result (E A : Type 0) : Type 0 where
  ok : A → Result E A
  err : E → Result E A

infixl 5 ◌>>=◌ ◌>>◌
abbrev pub ◌>>=◌ : {E A B : Type 0} → Result E A → (A → Result E B) → Result E B
err raised >>= k = err raised
ok value >>= k = k value

abbrev pub ◌>>◌ : {E B : Type 0} → Result E (Unit {0}) → Result E B → Result E B
first >> then_k = first >>= λ _. then_k

module _ {E : Type 0} where
  -- `if c: raise e`
  abbrev pub raise_if : Bool → E → Result E (Unit {0})
  raise_if false raised = ok tt
  raise_if true raised = err raised

  -- `d[k]`, which raises on a missing key.
  abbrev pub or_raise : {A : Type 0} → Option A → E → Result E A
  or_raise none e = err e
  or_raise (some a) e = ok a

  -- `[f(x) for x in xs]` for an `f` that may raise.
  abbrev pub traverse : {A B : Type 0} → (A → Result E B) → List A → Result E (List B)
  traverse f [] = ok []
  traverse f (x ∷ xs) = f x >>= λ y. traverse f xs >>= λ ys. ok (y ∷ ys)

  pub >>=-eq-ok :
      {A B : Type 0} (x : Result E A) (k : A → Result E B) {y : B}
      → (x >>= k) ≡ ok y
      → (v : A) × (x ≡ ok v) × (k v ≡ ok y)
  >>=-eq-ok (err raised) k done = cc
  >>=-eq-ok (ok v) k done = (v, refl, done)

  pub >>-eq-ok :
      {B : Type 0} (m : Result E (Unit {0})) (k : Result E B) {b : B}
      → (m >> k) ≡ ok b
      → (m ≡ ok tt) × (k ≡ ok b)
  >>-eq-ok (ok tt) k h = (refl, h)
  >>-eq-ok (err e) k h = cc

  pub raise_if-eq-ok : (c : Bool) (e : E) → raise_if c e ≡ ok tt → c ≡ false
  raise_if-eq-ok true e h = cc
  raise_if-eq-ok false e h = refl

-- The checks of a function in their order: it comes through exactly if none of them fails.
pub raise_if->>-iff :
    {E B : Type 0} (c : Bool) (e : E) (m : Result E B) {b : B}
    → ((raise_if c e >> m) ≡ ok b) ↔ ((c ≡ false) × (m ≡ ok b))
raise_if->>-iff true e m = (λ h. cc, λ h. cc)
raise_if->>-iff false e m = (λ h. (refl, h), λ h. h.1)

pub raise_if_iff : {E : Type 0} (c : Bool) (e : E) → (raise_if c e ≡ ok tt) ↔ (c ≡ false)
raise_if_iff true e = (λ h. cc, λ h. cc)
raise_if_iff false e = (λ h. refl, λ h. refl)

pub >>-iff :
    {E B : Type 0} (m : Result E (Unit {0})) (k : Result E B) {b : B}
    → ((m >> k) ≡ ok b) ↔ ((m ≡ ok tt) × (k ≡ ok b))
>>-iff (ok tt) k = (λ h. (refl, h), λ h. h.1)
>>-iff (err e) k = (λ h. cc, λ h. cc)

pub ok-injective : {E A : Type 0} (a b : A) → Path (Result E A) (ok a) (ok b) → a ≡ b
ok-injective a b h = cc

pub or_raise-eq-ok :
    {E A : Type 0} (o : Option A) (e : E) (a : A) → or_raise o e ≡ ok a → o ≡ some a
or_raise-eq-ok none e a h = cc
or_raise-eq-ok (some b) e a h = cc
