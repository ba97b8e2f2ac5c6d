-- ===== src/Runtime/Signer.antt =====
-- runtime/identity/signer.py: signing an artifact and verifying its attached signature. The JSON
-- encoder, the key files and the Ed25519 library (nacl) are the parameter `Crypto`.
use acds.Prelude.{
  String, ◌≡◌, refl, sym, Bool, true, false, ◌||◌, Option, none, some, Result, ok, ◌>>=◌, >>=-eq-ok,
  ok-injective, if◌then◌else◌, str_eq,
}
use acds.Runtime.Faults.{Fault}
use acds.Runtime.Artifacts.{
  Signature, absent, malformed, block, ValidationResult, Plan, Lease, Revocation, ExecutionRecord,
  Receipt, Artifact,
}
use acds.Runtime.Artifacts

-- The JSON encoder, the key files of `keys_dir` by role, and nacl behind base64.
pub record Crypto : Type 1 where
  pub Bytes : Type 0
  pub SigningKey : Type 0
  pub VerifyKey : Type 0
  -- `json.dumps(obj, sort_keys=True, separators=(",", ":"), ensure_ascii=True).encode("utf-8")`
  pub dumps : Artifact → Bytes
  pub load_signing_key : String → Result Fault SigningKey
  pub load_verify_key : String → Result Fault VerifyKey
  -- base64 of the signature of a payload
  pub key_sign : SigningKey → Bytes → String
  -- `false` for `BadSignatureError`, a fault for any other exception
  pub key_verify : VerifyKey → Bytes → String → Result Fault Bool

-- The two keys of a role are a pair: what the one signs, the other verifies, and the base64 text of
-- a signature is not empty.
pub record IsKeyPair (c : Crypto) (role : String) : Type 0 where
  pub signing_key : c.SigningKey
  pub verify_key : c.VerifyKey
  pub signing_loads : c.load_signing_key role ≡ ok signing_key
  pub verify_loads : c.load_verify_key role ≡ ok verify_key
  pub verifies : (b : c.Bytes) → c.key_verify verify_key b (c.key_sign signing_key b) ≡ ok true
  pub not_empty : (b : c.Bytes) → str_eq (c.key_sign signing_key b) "" ≡ false

-- An artifact type with a `signature` field.
pub record Signable (A : Type 0) : Type 0 where
  pub signature : A → Signature
  pub with_signature : Signature → A → A
  pub artifact : A → Artifact
  pub signature-with : (s : Signature) (a : A) → signature (with_signature s a) ≡ s
  pub with-with :
      (s t : Signature) (a : A) → with_signature s (with_signature t a) ≡ with_signature s a

instance abbrev pub validation_signable : Signable ValidationResult
validation_signable = record {
  signature = λ a. a.signature;
  with_signature = λ s a. record a { signature = s };
  artifact = Artifacts.validation;
  signature-with = λ s a. refl;
  with-with = λ s t a. refl;
}

instance abbrev pub plan_signable : Signable Plan
plan_signable = record {
  signature = λ a. a.signature;
  with_signature = λ s a. record a { signature = s };
  artifact = Artifacts.plan;
  signature-with = λ s a. refl;
  with-with = λ s t a. refl;
}

instance abbrev pub lease_signable : Signable Lease
lease_signable = record {
  signature = λ a. a.signature;
  with_signature = λ s a. record a { signature = s };
  artifact = Artifacts.lease;
  signature-with = λ s a. refl;
  with-with = λ s t a. refl;
}

instance abbrev pub revocation_signable : Signable Revocation
revocation_signable = record {
  signature = λ a. a.signature;
  with_signature = λ s a. record a { signature = s };
  artifact = Artifacts.revocation;
  signature-with = λ s a. refl;
  with-with = λ s t a. refl;
}

instance abbrev pub execution_signable : Signable ExecutionRecord
execution_signable = record {
  signature = λ a. a.signature;
  with_signature = λ s a. record a { signature = s };
  artifact = Artifacts.execution;
  signature-with = λ s a. refl;
  with-with = λ s t a. refl;
}

instance abbrev pub receipt_signable : Signable Receipt
receipt_signable = record {
  signature = λ a. a.signature;
  with_signature = λ s a. record a { signature = s };
  artifact = Artifacts.receipt;
  signature-with = λ s a. refl;
  with-with = λ s t a. refl;
}

-- `not s` for a value that is `None` or a string
abbrev pub is_blank : Option String → Bool
is_blank none = true
is_blank (some s) = str_eq s ""

module _ {A : Type 0} ⦃s : Signable A⦄ (c : Crypto) where
  unfoldable pub canonical_json : A → c.Bytes
  canonical_json a = c.dumps (s.artifact a)

  unfoldable pub strip_signature : A → A
  strip_signature a = s.with_signature absent a

  unfoldable pub sign_artifact : A → String → Result Fault String
  unfolding canonical_json strip_signature
  sign_artifact a role = do
    signing_key ← c.load_signing_key role
    ok (c.key_sign signing_key (canonical_json (strip_signature a)))

  unfoldable pub sign_and_attach : A → String → Result Fault A
  unfolding sign_artifact
  sign_and_attach a role = do
    sig_value ← sign_artifact a role
    ok (s.with_signature (block (some role) (some sig_value)) a)

  unfoldable pub verify_signature : A → String → String → Result Fault Bool
  unfolding canonical_json strip_signature
  verify_signature a sig_value role = do
    verify_key ← c.load_verify_key role
    c.key_verify verify_key (canonical_json (strip_signature a)) sig_value

  unfoldable verify_block : A → Option String → Option String → Result Fault Bool
  unfolding verify_signature
  verify_block a (some role) (some sig_value) =
      if str_eq role "" || str_eq sig_value "" then ok false else verify_signature a sig_value role
  verify_block a _ _ = ok false

  unfoldable verify_as : A → Signature → Result Fault Bool
  unfolding verify_block
  verify_as a absent = ok false
  verify_as a malformed = ok false
  verify_as a (block role sig_value) = verify_block a role sig_value

  unfoldable pub verify_attached_signature : A → Result Fault Bool
  unfolding verify_as
  verify_attached_signature a = verify_as a (s.signature a)

  -- What signing attaches under a role that has a key pair.
  abbrev attached : {role : String} → IsKeyPair c role → A → A
  attached {role} k a =
      let value = c.key_sign k.signing_key (c.dumps (s.artifact (s.with_signature absent a))) in
      s.with_signature (block (some role) (some value)) a

  sign-attached :
      (role : String) (a : A) (k : IsKeyPair c role) → sign_and_attach a role ≡ ok (attached k a)
  unfolding sign_and_attach
  sign-attached role a k = rw k.signing_loads

  verify-attached :
      (role : String) (a : A) (k : IsKeyPair c role)
      → str_eq role "" ≡ false
      → verify_attached_signature (attached k a) ≡ ok true
  unfolding verify_attached_signature
  verify-attached role a k named =
      rw s.signature-with
        (rw named (rw k.not_empty (rw k.verify_loads (rw s.with-with (k.verifies _)))))

  -- Under a role that is not the empty text and has a key pair, signing succeeds, and what it signed
  -- verifies.
  pub verify-sign :
      (role : String) (a : A)
      → IsKeyPair c role
      → str_eq role "" ≡ false
      → (b : A) × (sign_and_attach a role ≡ ok b) × (verify_attached_signature b ≡ ok true)
  verify-sign role a k named =
      (attached k a, sign-attached role a k, verify-attached role a k named)

  -- Signing changes the signature alone.
  pub sign_and_attach-form :
      (role : String) (a b : A)
      → sign_and_attach a role ≡ ok b
      → (g : Signature) × (b ≡ s.with_signature g a)
  unfolding sign_and_attach
  sign_and_attach-form role a b e =
      let (v, _, f) =
        >>=-eq-ok (sign_artifact a role) (λ v. ok (s.with_signature (block (some role) (some v)) a))
          e in
      (block (some role) (some v), sym (ok-injective _ _ f))

  -- An artifact with no signature never verifies.
  pub verify-absent : (a : A) → s.signature a ≡ absent → verify_attached_signature a ≡ ok false
  unfolding verify_attached_signature
  verify-absent a e = rw e
