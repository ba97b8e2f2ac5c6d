-- ===== src/Runtime/Exchange/Receipts.antt =====
-- runtime/pipeline/runner.py: an intake settles every file and leaves a receipt for each.
use acds.Prelude.{
  ℕ, String, Text, ◌≡◌, refl, sym, ap, ◌∙◌, subst, Bool, true, Option, none, some, List, [], ◌∷◌,
  ◌++◌, Result, ok, err, All, lookup, length, inl, inr, str_eq, Bool-cases,
}
use mathlib.Core.List.{append-nil, append_assoc}
use acds.Prelude.States.{lift, ◌>>◌, Succeeds, Succeeds-bind, Succeeds-mono}
use acds.Runtime.Artifacts.{Receipt}
use acds.Runtime.Signer.{
  Crypto, IsKeyPair, receipt_signable, verify_attached_signature, verify-sign, sign_and_attach-form,
}
use acds.Runtime.Exchange.Files.{Directory, names, sorted_names}
use acds.Runtime.Exchange.Names.{Distinct, insert-Distinct, All-insert}
use acds.Runtime.Exchange.Acceptance.{IsReadable}
use acds.Runtime.Exchange.Settling.{Processed, process_quarantine-Settles}
use acds.Runtime.Exchange.{Content, IngressFault, Ingress, Outcome, process_quarantine}
use acds.Runtime.Exchange.Intake.{
  Intake, status_of, unsigned_receipt, create_receipt, save_receipt, save_receipts, quarantine_file,
  quarantine_all, settle_quarantine, ingest_from_m2,
}

module _ {J : Type 0} (has : J → String → Bool) (schema_errors : J → List String)
    (stem_lower stem : String → Text) (type_order : List String) (crypto : Crypto)
    (fresh : ℕ → String) (now : String) where
  -- The receipt is of the file, says how it ended, and its signature verifies.
  pub record IsReceipt (outcome : Outcome) (receipt : Receipt) : Type 0 where
    pub of_file : receipt.artifact_id ≡ stem outcome.file_name
    pub says : receipt.validation_status ≡ status_of outcome.verdict
    pub verifies : verify_attached_signature crypto receipt ≡ ok true

  -- A receipt for each result, in their order.
  abbrev pub Receipts : List Outcome → List Receipt → Type 0
  Receipts [] [] = Unit {0}
  Receipts (o ∷ outcomes) (r ∷ receipts) = IsReceipt o r × Receipts outcomes receipts
  Receipts _ _ = ⊥

  module _ (k : IsKeyPair crypto "node_attestation_signer") where
    create_receipt-IsReceipt :
        (n : ℕ) (outcome : Outcome)
        → (r : Receipt) × (create_receipt has schema_errors stem_lower stem type_order crypto fresh
              now n outcome
            ≡ ok r)
          × IsReceipt outcome r
    unfolding create_receipt unsigned_receipt
    create_receipt-IsReceipt n outcome =
        let u =
          unsigned_receipt has schema_errors stem_lower stem type_order crypto fresh now n
            outcome in
        let (r, e, v) = verify-sign crypto "node_attestation_signer" u k refl in
        let (g, form) = sign_and_attach-form crypto "node_attestation_signer" u r e in
        (
          r,
          e,
          record {
            of_file = ap (λ (x : Receipt). x.artifact_id) form;
            says = ap (λ (x : Receipt). x.validation_status) form;
            verifies = v;
          },
        )

    -- The receipts that were saved from one state to another, and that the directories stayed.
    record Saved (outcomes : List Outcome) (s s' : Intake J) : Type 0 where
      latest : List Receipt
      grown : s'.receipts ≡ s.receipts ++ latest
      each : Receipts outcomes latest
      kept : s'.ingress ≡ s.ingress

    save_receipts-Saved :
        (outcomes : List Outcome) (s : Intake J)
        → Succeeds
            (λ _. Saved outcomes s)
            (save_receipts has schema_errors stem_lower stem type_order crypto fresh now outcomes s)
    unfolding save_receipts save_receipt
    save_receipts-Saved [] s = record {
      latest = [];
      grown = sym (append-nil s.receipts);
      each = tt;
      kept = refl;
    }
    save_receipts-Saved (outcome ∷ rest) s =
        let (r, e, is) = create_receipt-IsReceipt (length s.receipts) outcome in
        let s' : Intake J = record s { receipts = s.receipts ++ r ∷ [] } in
        rw e (
          Succeeds-mono (λ _. Saved rest s') (λ _. Saved (outcome ∷ rest) s)
            (save_receipts has schema_errors stem_lower stem type_order crypto fresh now rest s')
            (λ _ s'' a. record {
              latest = r ∷ a.latest;
              grown = a.grown ∙ append_assoc s.receipts (r ∷ []) a.latest;
              each = (is, a.each);
              kept = a.kept;
            })
            (save_receipts-Saved rest s'))

  -- No name of the quarantine stands twice, and no file of it is a number, a Boolean or null.
  pub record IsOrderly (s : Ingress J) : Type 0 where
    pub distinct : Distinct (names s.quarantine)
    pub readable : All (λ (row : String × Content J). IsReadable row.1) s.quarantine

  quarantine_file-IsOrderly :
      (name : String) (file : Option (Content J)) (s : Ingress J)
      → ((content : Content J) → file ≡ some content → IsReadable content)
      → IsOrderly s
      → IsOrderly (
          quarantine_file has schema_errors stem_lower stem type_order crypto fresh now name file s)
  unfolding quarantine_file
  quarantine_file-IsOrderly name none s r h = h
  quarantine_file-IsOrderly name (some content) s r h = record {
    distinct = insert-Distinct name content s.quarantine h.distinct;
    readable = All-insert IsReadable name content s.quarantine (r content refl) h.readable;
  }

  lookup-All :
      (P : Content J → Type 0) (name : String) (directory : Directory (Content J))
      → All (λ (row : String × Content J). P row.1) directory
      → (content : Content J) → lookup name directory ≡ some content
      → P content
  unfolding lookup
  lookup-All P name [] a content e = absurd (cc)
  lookup-All P name ((other, file) ∷ rest) a content e = elim (Bool-cases (str_eq name other)) [
    | inl y ↦ subst P (cc (rw y at e)) a.0
    | inr n ↦ lookup-All P name rest a.1 content (rw n at e)
  ]

  quarantine_all-IsOrderly :
      (list : List String) (exports : Directory (Content J)) (s : Ingress J)
      → All (λ (row : String × Content J). IsReadable row.1) exports
      → IsOrderly s
      → IsOrderly (
          quarantine_all has schema_errors stem_lower stem type_order crypto fresh now list exports
            s)
  unfolding quarantine_all
  quarantine_all-IsOrderly [] exports s a h = h
  quarantine_all-IsOrderly (name ∷ rest) exports s a h = quarantine_all-IsOrderly rest exports _ a (
      quarantine_file-IsOrderly name (lookup name exports) s
        (λ content e. lookup-All IsReadable name exports a content e) h)

  abbrev SettledFrom : Ingress J → List Receipt → List Outcome → Intake J → Type 0
  SettledFrom copied receipts outcomes s =
      Processed has schema_errors stem_lower type_order (sorted_names copied.quarantine) copied
        outcomes s.ingress
      × (s.receipts ≡ receipts)

  settle_quarantine-SettledFrom :
      (copied : Ingress J) (receipts : List Receipt)
      → IsOrderly copied
      → Succeeds (SettledFrom copied receipts) (
          settle_quarantine has schema_errors stem_lower stem type_order crypto fresh now
            (record { ingress = copied; receipts = receipts }))
  unfolding settle_quarantine
  settle_quarantine-SettledFrom copied receipts h =
      after (process_quarantine has schema_errors stem_lower type_order copied) (
        process_quarantine-Settles has schema_errors stem_lower type_order copied h.distinct
          h.readable)
    where
      after :
          (r : Result IngressFault (List Outcome) × Ingress J)
          → Succeeds
              (Processed has schema_errors stem_lower type_order
                (sorted_names copied.quarantine)
                copied)
              r
          → Succeeds
              (SettledFrom copied receipts)
              (r.0, record { ingress = r.1; receipts = receipts })
      after (ok outcomes, s) p = (p, refl)
      after (err fault, s) p = p

  -- What an intake of these exports leaves.
  pub record IsTakenIn (exports : Directory (Content J)) (s : Intake J) (outcomes : List Outcome)
      (s' : Intake J) : Type 0 where
    -- the directories, once the exports are copied into quarantine
    pub copied : Ingress J
    pub from_exports :
        copied
        ≡ quarantine_all has schema_errors stem_lower stem type_order crypto fresh now
            (sorted_names exports)
            exports
            s.ingress
    pub settled :
        Processed has schema_errors stem_lower type_order
          (sorted_names copied.quarantine)
          copied
          outcomes
          s'.ingress
    pub latest : List Receipt
    pub grown : s'.receipts ≡ s.receipts ++ latest
    pub each : Receipts outcomes latest

  -- Under the key pair of the receipts' role, and where no file is a JSON number, Boolean or null
  -- and no name stands twice in quarantine, an intake returns: the exports are copied into
  -- quarantine, every JSON file there is settled, each result has the verdict by which its file was
  -- settled, and it has a receipt, in their order, that is of its file, says what the verdict is and
  -- verifies.
  pub ingest_from_m2-IsTakenIn :
      (exports : Directory (Content J)) (s : Intake J)
      → IsKeyPair crypto "node_attestation_signer"
      → All (λ (row : String × Content J). IsReadable row.1) exports
      → IsOrderly s.ingress
      → Succeeds (IsTakenIn exports s) (
          ingest_from_m2 has schema_errors stem_lower stem type_order crypto fresh now
            (some exports)
            s)
  unfolding ingest_from_m2
  ingest_from_m2-IsTakenIn exports s k a h =
      Succeeds-bind (SettledFrom copied s.receipts) (IsTakenIn exports s)
        (settle_quarantine has schema_errors stem_lower stem type_order crypto fresh now)
        (λ results.
          save_receipts has schema_errors stem_lower stem type_order crypto fresh now results
          >> lift (ok results))
        (record s { ingress = copied })
        (settle_quarantine-SettledFrom copied s.receipts
          (quarantine_all-IsOrderly (sorted_names exports) exports s.ingress a h))
        (λ outcomes t p.
          Succeeds-bind (λ _. Saved k outcomes t) (IsTakenIn exports s)
            (save_receipts has schema_errors stem_lower stem type_order crypto fresh now outcomes)
            (λ _. lift (ok outcomes)) t (save_receipts-Saved k outcomes t)
            (λ _ t' saved. record {
              copied = copied;
              from_exports = refl;
              settled =
                  subst
                    (Processed has schema_errors stem_lower type_order
                      (sorted_names copied.quarantine) copied outcomes)
                    (sym saved.kept) p.0;
              latest = saved.latest;
              grown = saved.grown ∙ ap (λ l. l ++ saved.latest) p.1;
              each = saved.each;
            }))
    where
      copied : Ingress J
      copied =
          quarantine_all has schema_errors stem_lower stem type_order crypto fresh now
            (sorted_names exports) exports s.ingress
