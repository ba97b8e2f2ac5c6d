-- ===== src/Examples/Toys.antt =====
-- Concrete libraries: a clock text in unary, a signature that is always "sig", a matcher that finds
-- nothing, and files that are a list of the paths written.
use Prim.Native.String.{◌++◌, count}
use text.Mathlib.TextLemmas.{length-append}
use acds.Prelude.{
  ℕ, zero, suc, String, ◌≡◌, refl, sym, ap, ◌∙◌, inl, inr, true, false, some, List, [], ◌∷◌, ok,
  arith, eq_iff, str_eq, Bool-cases, Text, codes,
}
use acds.Runtime.Artifacts.{Proposal, Artifact}
use acds.Runtime.Signer.{Crypto, IsKeyPair}
use acds.Runtime.Clock.{Platform, IsPlatform}
use acds.Runtime.Validator.{Matcher}
use acds.Runtime.Executor.Steps.{Host, returned_zero}

abbrev unary : ℕ → String
unary zero = "T"
unary (suc n) = "x" ++ unary n

count-unary : (n : ℕ) → count (unary n) ≡ suc n
count-unary zero = refl
count-unary (suc n) =
    let a = length-append "x" (unary n) in let b = count-unary n in omega (arith, a, b)

abbrev minus_one : ℕ → ℕ
minus_one zero = zero
minus_one (suc n) = n

abbrev pub platform : Platform
platform = record {
  isoformat = unary;
  fromisoformat = λ s. some (minus_one (count s));
  lower = λ s. s;
}

pub platform-IsPlatform : IsPlatform platform
platform-IsPlatform = record {
  reads_back = λ t. ap (λ n. some (minus_one n)) (count-unary t);
  not_empty = λ t. elim (Bool-cases (str_eq (unary t) "")) [
    | inr n ↦ n
    | inl y ↦
        let e = sym (count-unary t) ∙ ap count ((eq_iff (unary t) "").0 y) in
        absurd (omega (arith, e))
  ];
}

abbrev pub crypto : Crypto
crypto = record {
  Bytes = Artifact;
  SigningKey = Unit;
  VerifyKey = Unit;
  dumps = λ a. a;
  load_signing_key = λ role. ok tt;
  load_verify_key = λ role. ok tt;
  key_sign = λ k b. "sig";
  key_verify = λ k b s. ok (str_eq s "sig");
}

pub key_pair : (role : String) → IsKeyPair crypto role
key_pair role = record {
  signing_key = tt;
  verify_key = tt;
  signing_loads = refl;
  verify_loads = refl;
  verifies = λ b. refl;
  not_empty = λ b. refl;
}

abbrev pub matcher : Matcher
matcher = record { search = λ q t. false; schema_errors = λ p. [] }

abbrev pub host : Host
host = record {
  Files = List Text;
  workspace = codes "/ws/";
  workspace_resolved = codes "/ws";
  resolve = λ t. some t;
  exists = λ files t. true;
  make_parents = λ files t. (true, files);
  write_text = λ files t content. (true, t ∷ files);
  unlink = λ files t. (true, files);
  append_text = λ files t content. (true, t ∷ files);
  run_command = λ files t. (returned_zero, files);
}

abbrev pub proposal : Proposal
proposal = record {
  proposal_id = some "p1";
  intent = codes "add a page";
  allowed_paths = codes "docs" ∷ [];
  denied_paths = codes "docs/private" ∷ [];
  target_paths = codes "docs/a.md" ∷ [];
  declared_side_effects = [];
  modifications =
      record { operation = some "create"; path = codes "docs/a.md"; content = codes "hi" } ∷ [];
  acceptance_tests = record { test_id = some "t1"; command = codes "test -f docs/a.md" } ∷ [];
}
