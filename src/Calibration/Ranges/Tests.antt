-- ===== src/Calibration/Ranges/Tests.antt =====
-- Three classes on two hosts.
use llm_sched_study.Base.{ℕ, ◌≡◌, refl, String, List, [], ◌∷◌, All, map, ok, arith}
use llm_sched_study.Samples.{whole}
use llm_sched_study.Calibration.Ranges.{NodeClassThroughput, RRange, range_of, synthesizable_range}
use llm_sched_study.Calibration.Ranges.Extents.{
  Laws, HasExtremes, HasDeployable, synthesizable_range-extents,
}

abbrev class : String → String → ℕ → NodeClassThroughput ℕ
class name host rate = record { node_class = name; host = host; tokens_per_s = rate; model = "m" }

abbrev classes : List (NodeClassThroughput ℕ)
classes = class "a" "h1" 40 ∷ class "b" "h1" 8 ∷ class "c" "h2" 10 ∷ []

whole-Laws : Laws whole
whole-Laws = record {
  irrefl = λ a. ground arith;
  asym = λ a b h. ground arith;
  trans = λ a b c n h k. ground arith;
}

abbrev range : RRange whole
range = range_of whole (class "a" "h1" 40) (class "b" "h1" 8 ∷ class "c" "h2" 10 ∷ [])

ranged : synthesizable_range whole classes ≡ ok range
unfolding synthesizable_range
ranged = refl

synthesizable_range-extents_example :
    HasExtremes whole classes range
    × HasDeployable whole classes range
    × ((m : String) × All (λ y. y ≡ m) (map (λ x. x.model) classes))
synthesizable_range-extents_example =
    synthesizable_range-extents whole whole-Laws classes range (refl, (refl, (refl, tt)))
      (λ x y m n. ground arith) ranged
