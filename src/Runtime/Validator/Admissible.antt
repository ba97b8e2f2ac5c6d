-- ===== src/Runtime/Validator/Admissible.antt =====
-- Which proposals pass validation, stated apart from the validator's tests.
use acds.Prelude.{
  String, ◌≡◌, refl, ◌↔◌, ◌⊎◌, inl, inr, Bool, true, false, not, ◌&&◌, Option, some, List, [], ◌∷◌,
  ◌++◌, map, ok, arith, eq_iff, if◌then◌else◌, Text, codes, text_eq, text_eq_iff, has_part,
  has_part_iff, HasPart, is_empty, any, any_iff, Any, all, All, Bool-cases,
}
use acds.Runtime.Paths.{covers, covers_iff, Inside}
use acds.Runtime.Artifacts.{
  Modification, AcceptanceTest, Proposal, Violation, non_deterministic, self_certifying,
  schema_error, Check, ValidationResult,
}
use acds.Runtime.Signer.{Crypto, validation_signable, sign_and_attach-form}
use acds.Runtime.Validator.{
  Matcher, non_deterministic_patterns, self_certifying_patterns, when, each, path_violations,
  undeclared_path, test_violations, check_schema, check_scope_containment,
  check_undeclared_side_effects, check_deterministic_tests, check_no_self_certification,
  validate_proposal,
}

-- The path has no "..", lies in an allowed path and in no denied one.
abbrev pub IsContained : Proposal → Text → Type 0
IsContained proposal path =
    (¬ HasPart (codes "..") path)
    × Any (Inside path) proposal.allowed_paths
    × (¬ Any (Inside path) proposal.denied_paths)

abbrev pub IsDeclared : Proposal → Text → Type 0
IsDeclared proposal path =
    Any (λ t. path ≡ t) proposal.target_paths ⊎ Any (λ t. path ≡ t) proposal.declared_side_effects

pub record IsAdmissible (m : Matcher) (proposal : Proposal) : Type 0 where
  pub conforms : m.schema_errors proposal ≡ []
  pub contained : All (λ (x : Modification). IsContained proposal x.path) proposal.modifications
  pub declared : All (λ (x : Modification). IsDeclared proposal x.path) proposal.modifications
  pub deterministic :
      All
        (λ (t : AcceptanceTest). All (λ q. m.search q t.command ≡ false) non_deterministic_patterns)
        proposal.acceptance_tests
  pub honest : All (λ q. m.search q proposal.intent ≡ false) self_certifying_patterns

is_empty-append {ℓ} :
    {A : Type ℓ} (xs ys : List A) → is_empty (xs ++ ys) ≡ (is_empty xs && is_empty ys)
is_empty-append [] ys = refl
is_empty-append (x ∷ xs) ys = refl

is_empty-when : (b : Bool) (v : Violation) → is_empty (when b v) ≡ not b
is_empty-when true v = refl
is_empty-when false v = refl

-- A loop finds nothing exactly when each item adds nothing.
each_iff :
    {A : Type 0} (f : A → List Violation) (P : A → Type 0)
    → ((x : A) → (is_empty (f x) ≡ true) ↔ P x)
    → (xs : List A) → (is_empty (each f xs) ≡ true) ↔ All P xs
unfolding each
each_iff f P e [] = ground arith
each_iff f P e (x ∷ xs) = rw is_empty-append (ground (arith, e x, each_iff f P e xs))

search_iff : (b : Bool) (v : Violation) → (is_empty (when b v) ≡ true) ↔ (b ≡ false)
search_iff b v = ground arith

path_violations_iff :
    (proposal : Proposal) (path : Text)
    → (is_empty (path_violations proposal.allowed_paths proposal.denied_paths path) ≡ true)
      ↔ IsContained proposal path
unfolding path_violations
path_violations_iff proposal path =
    let (p, q) = has_part_iff (codes "..") path in
    let (a, a') = any_iff (covers path) (Inside path) (covers_iff path) proposal.allowed_paths in
    let (d, d') = any_iff (covers path) (Inside path) (covers_iff path) proposal.denied_paths in
    elim (Bool-cases (has_part (codes "..") path)) [
      | inl e ↦ rw e (λ h. cc, λ h. absurd (h.0 (p e)))
      | inr n ↦
          rw (n, is_empty-append, is_empty-when, is_empty-when)
            (
              λ h. (λ x. cc (q x), a (ground arith), λ x. let y = d' x in absurd (ground arith)),
              λ (x, y, z).
                  let u = a' y in
                  elim (Bool-cases (any (covers path) proposal.denied_paths)) [
                    | inl e ↦ absurd (z (d e))
                    | inr k ↦ ground arith
                  ],
            )
    ]

undeclared_path_iff :
    (proposal : Proposal) (path : Text)
    → (is_empty (undeclared_path proposal path) ≡ true) ↔ IsDeclared proposal path
unfolding undeclared_path
undeclared_path_iff proposal path = ground (
  arith,
  any_iff (text_eq path) (λ t. path ≡ t) (text_eq_iff path) proposal.target_paths,
  any_iff (text_eq path) (λ t. path ≡ t) (text_eq_iff path) proposal.declared_side_effects,
)

test_violations_iff :
    (m : Matcher) (t : AcceptanceTest)
    → (is_empty (test_violations m t) ≡ true)
      ↔ All (λ q. m.search q t.command ≡ false) non_deterministic_patterns
unfolding test_violations
test_violations_iff m t =
    each_iff (λ q. when (m.search q t.command) (non_deterministic t.test_id q))
      (λ q. m.search q t.command ≡ false)
      (λ q. search_iff (m.search q t.command) (non_deterministic t.test_id q))
      non_deterministic_patterns

nil_map_iff : (xs : List String) → (is_empty (map schema_error xs) ≡ true) ↔ (xs ≡ [])
nil_map_iff [] = ground arith
nil_map_iff (x ∷ xs) = ground arith

module _ (m : Matcher) (proposal : Proposal) where
  schema_iff : ((check_schema m proposal).passed ≡ true) ↔ (m.schema_errors proposal ≡ [])
  unfolding check_schema
  schema_iff = nil_map_iff (m.schema_errors proposal)

  scope_iff :
      ((check_scope_containment proposal).passed ≡ true)
      ↔ All (λ (x : Modification). IsContained proposal x.path) proposal.modifications
  unfolding check_scope_containment
  scope_iff =
      each_iff
        (λ (x : Modification). path_violations proposal.allowed_paths proposal.denied_paths x.path)
        (λ x. IsContained proposal x.path) (λ x. path_violations_iff proposal x.path)
        proposal.modifications

  side_effects_iff :
      ((check_undeclared_side_effects proposal).passed ≡ true)
      ↔ All (λ (x : Modification). IsDeclared proposal x.path) proposal.modifications
  unfolding check_undeclared_side_effects
  side_effects_iff =
      each_iff (λ (x : Modification). undeclared_path proposal x.path)
        (λ x. IsDeclared proposal x.path) (λ x. undeclared_path_iff proposal x.path)
        proposal.modifications

  tests_iff :
      ((check_deterministic_tests m proposal).passed ≡ true)
      ↔ All
          (λ (t : AcceptanceTest).
            All (λ q. m.search q t.command ≡ false) non_deterministic_patterns)
          proposal.acceptance_tests
  unfolding check_deterministic_tests
  tests_iff =
      each_iff (test_violations m)
        (λ t. All (λ q. m.search q t.command ≡ false) non_deterministic_patterns)
        (test_violations_iff m) proposal.acceptance_tests

  certification_iff :
      ((check_no_self_certification m proposal).passed ≡ true)
      ↔ All (λ q. m.search q proposal.intent ≡ false) self_certifying_patterns
  unfolding check_no_self_certification
  certification_iff =
      each_iff (λ q. when (m.search q proposal.intent) (self_certifying q))
        (λ q. m.search q proposal.intent ≡ false)
        (λ q. search_iff (m.search q proposal.intent) (self_certifying q)) self_certifying_patterns

  abbrev all_checks : List Check
  all_checks =
      check_schema m proposal
      ∷ check_scope_containment proposal
      ∷ check_undeclared_side_effects proposal
      ∷ check_deterministic_tests m proposal
      ∷ check_no_self_certification m proposal
      ∷ []

  -- The five checks all pass exactly when the proposal is admissible.
  checks_iff : (all (λ (k : Check). k.passed) all_checks ≡ true) ↔ IsAdmissible m proposal
  unfolding all
  checks_iff =
      let (a, a') = schema_iff in
      let (b, b') = scope_iff in
      let (c, c') = side_effects_iff in
      let (d, d') = tests_iff in
      let (e, e') = certification_iff in
      (
        λ h. record {
          conforms = a (ground arith);
          contained = b (ground arith);
          declared = c (ground arith);
          deterministic = d (ground arith);
          honest = e (ground arith);
        },
        λ h.
            rw (a' h.conforms) (
              rw (b' h.contained)
                (rw (c' h.declared) (rw (d' h.deterministic) (rw (e' h.honest))))),
      )

status_iff :
    (b : Bool)
    → ((◌≡◌ {A = Option String} (some (if b then "passed" else "failed")) (some "passed"))
        ↔ (b ≡ true))
      × (◌≡◌ {A = Option String} (some (if b then "passed" else "failed")) (some "passed")
          ⊎ ◌≡◌ {A = Option String} (some (if b then "passed" else "failed")) (some "failed"))
status_iff true = ground arith
status_iff false = ground (arith, eq_iff "failed" "passed")

-- Validation returns a result that passed exactly when the proposal is admissible, and any other
-- result that it returns failed.
pub validate_proposal-status :
    (c : Crypto) (m : Matcher) (validation_id : String) (proposal : Proposal) (r : ValidationResult)
    → validate_proposal c m validation_id proposal ≡ ok r
    → ((r.status ≡ some "passed") ↔ IsAdmissible m proposal)
      × ((r.status ≡ some "passed") ⊎ (r.status ≡ some "failed"))
unfolding validate_proposal
validate_proposal-status c m validation_id proposal r h =
    let (g, form) = sign_and_attach-form c "validator_signer" _ r h in
    let (iff, either) = status_iff (all (λ (k : Check). k.passed) (all_checks m proposal)) in
    let (f, f') = checks_iff m proposal in rw form ((λ e. f (iff.0 e), λ x. iff.1 (f' x)), either)
