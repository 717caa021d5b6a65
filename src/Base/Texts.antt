-- ===== src/Base/Texts.antt =====
-- Python's `str(n)` of a number, and joining texts.
use Prim.Native.Nat.{ℕ, zero, suc, ◌+◌, ◌-◌, ◌*◌, ◌/◌, ◌%◌, ◌<◌}
use Prim.Native.Char.{Char, code}
use Prim.Native.String.{String}
use mathlib.Core.Path.{◌≡◌, refl, sym, ap, ◌∙◌}
use mathlib.Core.Logic.{◌≢◌, inl, inr}
use native.Mathlib.Omega.{arith}
pub use Prim.Native.String.{◌++◌ as ◌<>◌}
pub use text.Mathlib.TextLemmas.{append_cancel_left, append-nil as text-append-nil}
use llm_sched_study.Base.Tests.{if◌then◌else◌, ltb, Bool-cases}

pub digit : ℕ → Char
digit zero = "0"
digit (suc zero) = "1"
digit (suc (suc zero)) = "2"
digit (suc (suc (suc zero))) = "3"
digit (suc (suc (suc (suc zero)))) = "4"
digit (suc (suc (suc (suc (suc zero))))) = "5"
digit (suc (suc (suc (suc (suc (suc zero)))))) = "6"
digit (suc (suc (suc (suc (suc (suc (suc zero))))))) = "7"
digit (suc (suc (suc (suc (suc (suc (suc (suc zero)))))))) = "8"
digit (suc (suc (suc (suc (suc (suc (suc (suc (suc n))))))))) = "9"

-- The digits of `n` before `rest`, on fuel.
pub digits_before : ℕ → ℕ → String → String
digits_before zero n rest = rest
digits_before (suc fuel) n rest =
    let more = digits_before fuel (n / 10) (String.◌∷◌ (digit (n % 10)) rest) in
    if ltb n 10 then String.◌∷◌ (digit n) rest else more

-- `str(n)`
unfoldable pub str : ℕ → String
unfolding digits_before digit
str n = digits_before (n + 1) n ""

-- The number that the digits say, after `acc`.
value_from : ℕ → String → ℕ
value_from acc String.[] = acc
value_from acc (String.◌∷◌ c s) = value_from (acc * 10 + (code c - 48)) s

code-digit : (d : ℕ) → d < 10 → code (digit d) - 48 ≡ d
unfolding digit
code-digit zero h = refl
code-digit (suc zero) h = refl
code-digit (suc (suc zero)) h = refl
code-digit (suc (suc (suc zero))) h = refl
code-digit (suc (suc (suc (suc zero)))) h = refl
code-digit (suc (suc (suc (suc (suc zero))))) h = refl
code-digit (suc (suc (suc (suc (suc (suc zero)))))) h = refl
code-digit (suc (suc (suc (suc (suc (suc (suc zero))))))) h = refl
code-digit (suc (suc (suc (suc (suc (suc (suc (suc zero)))))))) h = refl
code-digit (suc (suc (suc (suc (suc (suc (suc (suc (suc n))))))))) h = omega arith

value_from-digit :
    (acc d : ℕ) (rest : String)
    → d < 10
    → value_from acc (String.◌∷◌ (digit d) rest) ≡ value_from (acc * 10 + d) rest
unfolding value_from
value_from-digit acc d rest h = ap (λ k. value_from (acc * 10 + k) rest) (code-digit d h)

value_from-digits_before :
    (fuel n : ℕ) (rest : String)
    → n < fuel
    → value_from 0 (digits_before fuel n rest) ≡ value_from n rest
unfolding digits_before
value_from-digits_before zero n rest h = absurd (omega arith)
value_from-digits_before (suc fuel) n rest h = elim (Bool-cases (ltb n 10)) [
  | inl small ↦
      rw small
        (value_from-digit 0 n rest (ground arith) ∙ ap (λ k. value_from k rest) (omega arith))
  | inr large ↦ rw large (
      value_from-digits_before fuel (n / 10) (String.◌∷◌ (digit (n % 10)) rest) (ground arith)
      ∙ value_from-digit (n / 10) (n % 10) rest (omega arith)
      ∙ ap (λ k. value_from k rest) (omega arith))
]

-- Two numbers that are written alike are one number.
pub str-injective : (m n : ℕ) → str m ≡ str n → m ≡ n
unfolding str value_from
str-injective m n h =
    sym (value_from-digits_before (m + 1) m "" (omega arith))
    ∙ ap (value_from 0) h
    ∙ value_from-digits_before (n + 1) n "" (omega arith)

pub str-ne_empty : (n : ℕ) → 0 < n → str n ≢ ""
unfolding str value_from
str-ne_empty n pos h =
    absurd (omega (arith, value_from-digits_before (n + 1) n "" (omega arith), ap (value_from 0) h))

str_runs : str 4207 ≡ "4207"
unfolding str
str_runs = refl
