-- ===== src/Examples/Runs.antt =====
-- Runs of the pipeline, of the executor and of the stages before it.
use acds.Prelude.{
  true, ◌≡◌, refl, some, [], ◌∷◌, ok, arith, codes, any, all, has_part, has_part_iff, text_eq,
  starts_with, strip_slash,
}
use acds.Runtime.Artifacts.{Proposal, ExecutionRecord}
use acds.Runtime.Signer.{
  sign_and_attach, sign_artifact, canonical_json, strip_signature, validation_signable,
  plan_signable, lease_signable,
}
use acds.Runtime.Validator.{
  validate_proposal, check_schema, check_scope_containment, check_undeclared_side_effects,
  check_deterministic_tests, check_no_self_certification, path_violations, undeclared_path, each,
  test_violations, non_deterministic_patterns, self_certifying_patterns,
}
use acds.Runtime.Validator.Admissible.{IsAdmissible, validate_proposal-status}
use acds.Runtime.Paths.{covers}
use acds.Runtime.Executor.Steps.{target_of}
use acds.Runtime.Pipeline.Stages.{Setup, Root, run}
use acds.Runtime.Pipeline.Runs.{AreResolved, AreKeyPairs, IsPrompt, run_total}
use acds.Runtime.Pipeline.Outcomes.{IsRecorded}
use acds.Runtime.Pipeline.Refusals.{IsRefused, run-IsRefused}
use acds.Examples.Toys.{platform, platform-IsPlatform, crypto, key_pair, matcher, host, proposal}

abbrev setup : Setup
setup = record {
  crypto = crypto;
  platform = platform;
  matcher = matcher;
  host = host;
  times = λ n. n;
  uuid = λ n. "id";
  node_id = "node";
  storable = λ name. true;
}

abbrev root : Root setup
root = record {
  proposals = [];
  validation = [];
  plans = [];
  leases = record { active = []; revoked_leases = []; events = [] };
  executions = [];
  log = [];
  files = [];
  reads = 0;
  fresh = 0;
}

keys : AreKeyPairs crypto
keys = record {
  validator = key_pair "validator_signer";
  compiler = key_pair "compiler_signer";
  lease = key_pair "lease_issuer_signer";
  node = key_pair "node_attestation_signer";
}

found : AreResolved setup proposal
unfolding target_of
found = ((_, refl), tt)

prompt : IsPrompt setup 0
prompt = (omega arith, omega arith, omega arith)

pub proposal-IsAdmissible : IsAdmissible matcher proposal
unfolding validate_proposal check_schema check_scope_containment check_undeclared_side_effects
    check_deterministic_tests check_no_self_certification path_violations undeclared_path each
    test_violations non_deterministic_patterns self_certifying_patterns covers any all has_part
    text_eq starts_with strip_slash sign_and_attach sign_artifact canonical_json strip_signature
proposal-IsAdmissible = (validate_proposal-status crypto matcher "v1" proposal _ refl).0.0 refl

run_total_example :
    (entry : ExecutionRecord) × (r' : Root setup) × (run setup proposal root ≡ (ok entry, r'))
    × IsRecorded setup entry r'
run_total_example =
    run_total setup proposal root "p1" found keys platform-IsPlatform prompt refl refl
      proposal-IsAdmissible

abbrev escaping : Proposal
escaping = record proposal {
  modifications =
      record { operation = some "create"; path = codes "../x"; content = codes "hi" } ∷ [];
}

escaping-bad : ¬ IsAdmissible matcher escaping
unfolding has_part starts_with
escaping-bad a = a.contained.0.0 ((has_part_iff (codes "..") (codes "../x")).0 refl)

run-IsRefused_example : IsRefused setup root (run setup escaping root)
run-IsRefused_example = run-IsRefused setup escaping root escaping-bad
