-- ===== src/Examples/Exchange.antt =====
-- Two files from the other node, a proposal and a lease.
use acds.Prelude.{ℕ, String, Text, Bool, refl, some, List, [], ◌∷◌, codes, contains}
use acds.Prelude.States.{Succeeds}
use acds.Runtime.Exchange.{Content, container, unreadable, Ingress, process_quarantine}
use acds.Runtime.Exchange.Files.{Directory, names, sorted_names}
use acds.Runtime.Exchange.Settling.{Processed, process_quarantine-Settles}
use acds.Runtime.Exchange.Intake.{Intake, ingest_from_m2}
use acds.Runtime.Exchange.Receipts.{IsTakenIn, ingest_from_m2-IsTakenIn}
use acds.Examples.Toys.{crypto, key_pair}

-- An artifact is the list of its keys.
abbrev has_key_in : List String → String → Bool
has_key_in keys key = contains key keys

abbrev no_errors : List String → List String
no_errors keys = []

abbrev whole_name : String → Text
whole_name name = codes name

abbrev some_order : List String
some_order = "analysis_note" ∷ "capability_lease" ∷ []

abbrev files : Directory (Content (List String))
files =
    ("proposal.json", container ("proposal_id" ∷ []))
    ∷ ("lease.json", container ("lease_id" ∷ "granted_capabilities" ∷ []))
    ∷ ("notes.txt", unreadable)
    ∷ []

abbrev full : Ingress (List String)
full = record { quarantine = files; validated = []; rejected = [] }

process_quarantine-Settles_example :
    Succeeds
      (Processed has_key_in no_errors whole_name some_order (sorted_names full.quarantine) full)
      (process_quarantine has_key_in no_errors whole_name some_order full)
unfolding names contains
process_quarantine-Settles_example =
    process_quarantine-Settles has_key_in no_errors whole_name some_order full
      (refl, (refl, (refl, tt))) (tt, (tt, (tt, tt)))

abbrev no_files : Intake (List String)
no_files = record {
  ingress = record { quarantine = []; validated = []; rejected = [] };
  receipts = [];
}

abbrev receipt_ids : ℕ → String
receipt_ids n = "receipt"

ingest_from_m2-IsTakenIn_example :
    Succeeds
      (IsTakenIn has_key_in no_errors whole_name whole_name some_order crypto receipt_ids "now"
        files no_files)
      (ingest_from_m2 has_key_in no_errors whole_name whole_name some_order crypto receipt_ids "now"
        (some files)
        no_files)
unfolding names
ingest_from_m2-IsTakenIn_example =
    ingest_from_m2-IsTakenIn has_key_in no_errors whole_name whole_name some_order crypto
      receipt_ids "now" files no_files (key_pair "node_attestation_signer") (tt, (tt, (tt, tt)))
      (record { distinct = tt; readable = tt })
