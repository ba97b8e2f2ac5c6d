-- ===== src/Runtime/Exchange/Intake.antt =====
-- runtime/exchange/receipt.py, and `ingest_from_m2` of runtime/pipeline/runner.py.
use acds.Prelude.{
  ℕ, String, Text, Bool, Option, none, some, List, [], ◌∷◌, ◌++◌, Result, ok, err, lookup, insert,
  length,
}
use acds.Prelude.States.{Exec, lift, ◌>>=◌, ◌>>◌}
use acds.Runtime.Artifacts.{absent, Receipt}
use acds.Runtime.Faults.{Fault}
use acds.Runtime.Signer.{Crypto, receipt_signable, sign_and_attach}
use acds.Runtime.Exchange.Files.{Directory, sorted_names}
use acds.Runtime.Exchange.{
  Content, Judgement, take_in, turn_away, IngressFault, unsigned, Ingress, Outcome,
  process_quarantine,
}

-- The directories of the handler, and the receipts in `artifacts/exchange`, the latest last.
pub record Intake (J : Type 0) : Type 0 where
  pub ingress : Ingress J
  pub receipts : List Receipt

-- `result["status"]`
unfoldable pub status_of : Judgement → String
status_of (take_in artifact_type) = "accepted"
status_of (turn_away reason) = "rejected"

abbrev to_intake : Result Fault Receipt → Result IngressFault Receipt
to_intake (ok receipt) = ok receipt
to_intake (err fault) = err (unsigned fault)

-- `fresh n` is the `n`th random receipt id, and `now` the time.
module _ {J : Type 0} (has : J → String → Bool) (schema_errors : J → List String)
    (stem_lower stem : String → Text) (type_order : List String) (crypto : Crypto)
    (fresh : ℕ → String) (now : String) where
  unfoldable pub unsigned_receipt : ℕ → Outcome → Receipt
  unfolding status_of
  unsigned_receipt n outcome = record {
    receipt_id = fresh n;
    artifact_id = stem outcome.file_name;
    origin_node = "m2";
    received_at = now;
    validation_status = status_of outcome.verdict;
    signature = absent;
  }

  -- `create_receipt`
  unfoldable pub create_receipt : ℕ → Outcome → Result Fault Receipt
  unfolding unsigned_receipt sign_and_attach
  create_receipt n outcome =
      sign_and_attach crypto (unsigned_receipt n outcome) "node_attestation_signer"

  -- `save_receipt`, under an id that is new.
  unfoldable pub save_receipt : Receipt → Intake J → Result IngressFault (Unit {0}) × Intake J
  save_receipt receipt s = (ok tt, record s { receipts = s.receipts ++ receipt ∷ [] })

  -- The loop over the results; both of their statuses get a receipt.
  unfoldable pub save_receipts : List Outcome → Exec (Intake J) IngressFault (Unit {0})
  unfolding create_receipt save_receipt
  save_receipts [] s = (ok tt, s)
  save_receipts (outcome ∷ rest) s =
      (do
        receipt ← lift (to_intake (create_receipt (length s.receipts) outcome))
        save_receipt receipt
        save_receipts rest)
        s

  -- `IngressHandler.quarantine`: `shutil.copy2` of a file that `glob` found.
  unfoldable pub quarantine_file : String → Option (Content J) → Ingress J → Ingress J
  unfolding insert
  quarantine_file file_name none s = s
  quarantine_file file_name (some content) s = record s {
    quarantine = insert file_name content s.quarantine;
  }

  unfoldable pub quarantine_all : List String → Directory (Content J) → Ingress J → Ingress J
  unfolding quarantine_file lookup
  quarantine_all [] exports s = s
  quarantine_all (file_name ∷ rest) exports s =
      quarantine_all rest exports (quarantine_file file_name (lookup file_name exports) s)

  -- The handler's part, on its own directories.
  unfoldable pub settle_quarantine : Exec (Intake J) IngressFault (List Outcome)
  unfolding process_quarantine
  settle_quarantine s =
      let (r, ingress) = process_quarantine has schema_errors stem_lower type_order s.ingress in
      (r, record s { ingress = ingress })

  -- `ingest_from_m2`; `none` where `m2_exports` is missing.
  unfoldable pub ingest_from_m2 :
      Option (Directory (Content J)) → Exec (Intake J) IngressFault (List Outcome)
  unfolding quarantine_all settle_quarantine save_receipts sorted_names
  ingest_from_m2 none s = (ok [], s)
  ingest_from_m2 (some exports) s =
      (do results ← settle_quarantine; save_receipts results; lift (ok results))
        (record s { ingress = quarantine_all (sorted_names exports) exports s.ingress })
