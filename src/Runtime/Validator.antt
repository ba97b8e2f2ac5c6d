-- ===== src/Runtime/Validator.antt =====
-- runtime/validation/validator.py: the five checks of a behaviour proposal. The regular expressions
-- of `re` and the JSON schema of the proposal are the parameter `Matcher`.
pub mod Admissible
use acds.Prelude.{
  String, Bool, true, false, not, ◌&&◌, Option, none, some, List, [], ◌∷◌, ◌++◌, map, Result,
  if◌then◌else◌, Text, codes, text_eq, has_part, is_empty, any, all,
}
use acds.Runtime.Paths.{covers}
use acds.Runtime.Faults.{Fault}
use acds.Runtime.Artifacts.{
  absent, Modification, AcceptanceTest, Proposal, Violation, schema_error, traversal, not_allowed,
  in_denied, undeclared, non_deterministic, self_certifying, Check, ValidationResult,
}
use acds.Runtime.Signer.{Crypto, validation_signable, sign_and_attach}

pub record Matcher : Type 0 where
  -- `re.search(pattern, text, re.IGNORECASE)` finds something
  pub search : String → Text → Bool
  -- the errors of `validate_artifact(proposal, "behavior_proposal")`
  pub schema_errors : Proposal → List String

unfoldable pub non_deterministic_patterns : List String
non_deterministic_patterns =
    "\\$RANDOM" ∷ "\\bdate\\s+\\+%s\\b" ∷ "\\bcurl\\b" ∷ "\\bwget\\b" ∷ "\\bfetch\\b" ∷ "\\bnc\\b"
    ∷ "\\btelnet\\b" ∷ "\\bssh\\b" ∷ "\\$\\(date\\b" ∷ "\\bmktemp\\b" ∷ "\\buuidgen\\b"
    ∷ "\\bpython\\s+-c\\b" ∷ "\\bpython3\\s+-c\\b" ∷ "\\bnode\\s+-e\\b" ∷ "\\bperl\\s+-e\\b"
    ∷ "\\bruby\\s+-e\\b" ∷ "\\bbash\\s+-c\\b" ∷ "\\bsh\\s+-c\\b" ∷ "\\beval\\b" ∷ "\\bexec\\b"
    ∷ "\\bxargs\\b" ∷ ";" ∷ "&&" ∷ "\\|\\|" ∷ "\\|" ∷ "`" ∷ "\\$\\(" ∷ "\\$\\{" ∷ []

unfoldable pub self_certifying_patterns : List String
self_certifying_patterns =
    "this proposal is approved" ∷ "execution is authorized" ∷ "automatically approved"
    ∷ "pre-authorized" ∷ "self-certif" ∷ "bypass validation" ∷ "skip gate" ∷ []

abbrev pub report : String → List Violation → Check
report name violations = record {
  check_name = name;
  passed = is_empty violations;
  detail = violations;
}

unfoldable pub check_schema : Matcher → Proposal → Check
check_schema m proposal = report "schema_conformance" (map schema_error (m.schema_errors proposal))

abbrev when : Bool → Violation → List Violation
when true v = v ∷ []
when false v = []

unfoldable pub path_violations : List Text → List Text → Text → List Violation
path_violations allowed denied mod_path =
    if has_part (codes "..") mod_path
    then traversal mod_path ∷ []
    else when (not (any (covers mod_path) allowed)) (not_allowed mod_path)
      ++ when (any (covers mod_path) denied) (in_denied mod_path)

-- The loops over the modifications and the tests append what each item adds.
unfoldable pub each {ℓ} : {A : Type ℓ} → (A → List Violation) → List A → List Violation
each f [] = []
each f (x ∷ xs) = f x ++ each f xs

unfoldable pub check_scope_containment : Proposal → Check
unfolding path_violations
check_scope_containment proposal = report "scope_containment" (
    each (λ (m : Modification). path_violations proposal.allowed_paths proposal.denied_paths m.path)
      proposal.modifications)

unfoldable pub undeclared_path : Proposal → Text → List Violation
undeclared_path proposal mod_path =
    when
      (not (any (text_eq mod_path) proposal.target_paths)
        && not (any (text_eq mod_path) proposal.declared_side_effects))
      (undeclared mod_path)

unfoldable pub check_undeclared_side_effects : Proposal → Check
unfolding undeclared_path
check_undeclared_side_effects proposal =
    report "no_undeclared_side_effects"
      (each (λ (m : Modification). undeclared_path proposal m.path) proposal.modifications)

unfoldable pub test_violations : Matcher → AcceptanceTest → List Violation
test_violations m test =
    each
      (λ (pattern_ : String).
        when (m.search pattern_ test.command) (non_deterministic test.test_id pattern_))
      non_deterministic_patterns

unfoldable pub check_deterministic_tests : Matcher → Proposal → Check
unfolding test_violations
check_deterministic_tests m proposal =
    report "deterministic_tests" (each (test_violations m) proposal.acceptance_tests)

unfoldable pub check_no_self_certification : Matcher → Proposal → Check
check_no_self_certification m proposal = report "no_self_certification" (
    each
      (λ (pattern_ : String). when (m.search pattern_ proposal.intent) (self_certifying pattern_))
      self_certifying_patterns)

abbrev pub or_default : String → Option String → String
or_default d none = d
or_default d (some s) = s

-- `validation_id` is the fresh uuid.
unfoldable pub validate_proposal :
    (c : Crypto) → Matcher → String → Proposal → Result Fault ValidationResult
validate_proposal c m validation_id proposal =
    let checks =
      check_schema m proposal
      ∷ check_scope_containment proposal
      ∷ check_undeclared_side_effects proposal
      ∷ check_deterministic_tests m proposal
      ∷ check_no_self_certification m proposal
      ∷ [] in
    sign_and_attach c
      (record {
        validation_id = some validation_id;
        proposal_id = some (or_default "unknown" proposal.proposal_id);
        status = some (if all (λ (k : Check). k.passed) checks then "passed" else "failed");
        checks = checks;
        signature = absent;
      })
      "validator_signer"
