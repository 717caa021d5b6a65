-- ===== src/Harness/Trace/Loads.antt =====
-- Which trace files are read.
use llm_sched_study.Base.{
  ℕ, ◌≡◌, refl, ap, ◌↔◌, false, not, String, Option, none, some, List, [], ◌∷◌, arith, ◌==◌, nat_eq,
  string_eq, length, ok, raise_if->>-iff, raise_if_iff, >>-iff, ok-injective,
}
use llm_sched_study.Harness.Trace.{
  TraceError, Line, header_line, request_line, trace_schema_version, check_header, check_hash,
  check_lines, load,
}

-- A hash that is expected is the file's.
abbrev pub IsExpected : String → Option String → Type 0
IsExpected actual none = Unit
IsExpected actual (some expected) = actual ≡ expected

check_hash_iff :
    (actual : String) (expected : Option String)
    → (check_hash actual expected ≡ ok tt) ↔ IsExpected actual expected
check_hash_iff actual none = (λ _. tt, λ _. refl)
check_hash_iff actual (some expected) = ground (
  arith,
  raise_if_iff (not (actual == expected)) (TraceError.wrong_hash actual expected),
  string_eq.beq_iff actual expected,
)

not_other : (a b : ℕ) → (not (a == b) ≡ false) ↔ (a ≡ b)
not_other a b = ground (arith, nat_eq.beq_iff a b)

module _ {H R : Type 0} where
  check_header_iff :
      (schema n : ℕ) (header : H) (lines : List (Line H R)) (h : H) (body : List (Line H R))
      → (check_header schema n header lines ≡ ok (h, body)) ↔ (
          (schema ≡ trace_schema_version)
          × (length lines ≡ n)
          × Path (H × List (Line H R)) (header, lines) (h, body))
  check_header_iff schema n header lines h body = (
    λ e.
        let (a, e1) = (raise_if->>-iff _ _ _).0 e in
        let (b, e2) = (raise_if->>-iff _ _ _).0 e1 in
        (
          (not_other schema trace_schema_version).0 a,
          (not_other (length lines) n).0 b,
          ok-injective _ _ e2,
        ),
    λ (a, b, c). (raise_if->>-iff _ _ _).1 (
      (not_other schema trace_schema_version).1 a,
      (raise_if->>-iff _ _ _).1 ((not_other (length lines) n).1 b, ap ok c),
    ),
  )

  check_lines_iff :
      (records : List (Line H R)) (h : H) (body : List (Line H R))
      → (check_lines records ≡ ok (h, body))
        ↔ (records ≡ header_line trace_schema_version (length body) h ∷ body)
  check_lines_iff [] h body = (λ e. cc, λ e. cc)
  check_lines_iff (request_line r ∷ lines) h body = (λ e. cc, λ e. cc)
  check_lines_iff (header_line schema n header ∷ lines) h body = (
    λ e. let (a, b, c) = (check_header_iff schema n header lines h body).0 e in cc,
    λ e. (check_header_iff schema n header lines h body).1 (cc, cc, cc),
  )

  -- A trace file is read exactly if its hash is the one that is expected, where one is, its first
  -- line is a header of the supported schema, and the header counts the lines that follow. What is
  -- read is that header and those lines.
  pub load-eq-ok :
      (actual : String) (expect_sha256 : Option String) (records : List (Line H R)) (h : H)
      (body : List (Line H R))
      → (load actual expect_sha256 records ≡ ok (h, body)) ↔ (
          IsExpected actual expect_sha256
          × (records ≡ header_line trace_schema_version (length body) h ∷ body))
  unfolding load
  load-eq-ok actual expect_sha256 records h body = (
    λ e.
        let (a, b) = (>>-iff _ _).0 e in
        ((check_hash_iff actual expect_sha256).0 a, (check_lines_iff records h body).0 b),
    λ (a, b).
        (>>-iff _ _).1
          ((check_hash_iff actual expect_sha256).1 a, (check_lines_iff records h body).1 b),
  )
