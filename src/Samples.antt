-- ===== src/Samples.antt =====
-- A stand-in for the floats, by which the examples run: whole numbers, no digit behind the point.
use llm_sched_study.Base.{ℕ, ◌+◌, ◌-◌, ◌*◌, Floats, ltb, leb, ◌==◌, nat_eq}
use Prim.Native.Nat.{◌/◌, ◌^◌}

abbrev pub whole : Floats
whole = record {
  Float = ℕ;
  of_nat = λ n. n;
  minus_one = 0;
  nan = 0;
  add = λ a b. a + b;
  sub = λ a b. a - b;
  mul = λ a b. a * b;
  div = λ a b. a / b;
  lt = ltb;
  le = leb;
  feq = λ a b. a == b;
  round_to = λ a _. a;
  round_nat = λ a. a;
  decimal = λ n k. n / 10 ^ k;
}
