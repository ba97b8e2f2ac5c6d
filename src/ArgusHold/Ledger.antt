-- ===== src/ArgusHold/Ledger.antt =====
-- swarm/argus_hold/ledger_writer.py: the append-only, hash-chained ledger.
use acds.Prelude.{ℕ, ◌+◌, String, Bool, true, false, List, [], ◌∷◌, ◌++◌, str_eq, insert}
use acds.ArgusHold.Models.{StageVerdict, StageResult, CommandEnvelope}

-- `entry_data`, what the content hash is of.
pub record EntryData : Type 0 where
  pub entry_id : String
  pub sequence_number : ℕ
  pub timestamp : String
  pub run_id : String
  pub envelope_id : String
  pub command_name : String
  pub stage_summary : List (String × StageVerdict)
  pub outcome : String

pub record LedgerEntry : Type 0 where
  pub entry_data : EntryData
  pub content_hash : String
  pub prev_hash : String
  pub chain_hash : String

-- The lines of the file, oldest first, and the two fields of the writer.
pub record LedgerState : Type 0 where
  pub lines : List LedgerEntry
  pub prev_hash : String
  pub sequence : ℕ

-- `{sr.stage_name: sr.verdict.value for sr in stage_results}`
unfoldable pub stage_summary :
    List StageResult → List (String × StageVerdict) → List (String × StageVerdict)
unfolding insert
stage_summary [] summary = summary
stage_summary (result ∷ results) summary =
    stage_summary results (insert result.stage_name result.verdict summary)

-- `GENESIS_HASH`
abbrev pub genesis_hash : String
genesis_hash = "0000000000000000000000000000000000000000000000000000000000000000"

-- What `verify_chain` objects to, with the number of the line.
pub data ChainViolation : Type 0 where
  content_mismatch prev_mismatch chain_mismatch : ℕ → ChainViolation

abbrev pub objection_unless : Bool → ChainViolation → List ChainViolation
objection_unless true violation = []
objection_unless false violation = violation ∷ []

-- SHA-256 of the canonical JSON of an entry, and of two texts together.
module _ (hash_content : EntryData → String) (hash_pair : String → String → String) where
  -- `_recover_state`
  unfoldable pub recover_from : String → ℕ → List LedgerEntry → String × ℕ
  recover_from prev_hash sequence [] = (prev_hash, sequence)
  recover_from prev_hash sequence (entry ∷ lines) =
      recover_from entry.chain_hash (entry.entry_data.sequence_number + 1) lines

  -- `LedgerWriter(config)` on a file that may be there.
  unfoldable pub open_ledger : List LedgerEntry → LedgerState
  unfolding recover_from
  open_ledger lines =
      let (prev_hash, sequence) = recover_from genesis_hash 0 lines in
      record { lines = lines; prev_hash = prev_hash; sequence = sequence }

  unfoldable pub next_entry :
      String → String → CommandEnvelope → List StageResult → String → LedgerState → LedgerEntry
  unfolding stage_summary
  next_entry entry_id now envelope stage_results outcome s =
      let data' : EntryData = record {
        entry_id = entry_id;
        sequence_number = s.sequence;
        timestamp = now;
        run_id = envelope.run_id;
        envelope_id = envelope.envelope_id;
        command_name = envelope.command_name;
        stage_summary = stage_summary stage_results [];
        outcome = outcome;
      } in
      record {
        entry_data = data';
        content_hash = hash_content data';
        prev_hash = s.prev_hash;
        chain_hash = hash_pair s.prev_hash (hash_content data');
      }

  -- `append`
  unfoldable pub append_entry :
      String → String → CommandEnvelope → List StageResult → String → LedgerState → LedgerState
  unfolding next_entry
  append_entry entry_id now envelope stage_results outcome s =
      let entry = next_entry entry_id now envelope stage_results outcome s in
      record {
        lines = s.lines ++ entry ∷ [];
        prev_hash = entry.chain_hash;
        sequence = s.sequence + 1;
      }

  -- The loop of `verify_chain`.
  unfoldable pub verify_from : ℕ → String → List LedgerEntry → List ChainViolation
  verify_from line_num prev_hash [] = []
  verify_from line_num prev_hash (entry ∷ lines) =
      objection_unless (str_eq entry.content_hash (hash_content entry.entry_data))
        (content_mismatch line_num)
      ++ (objection_unless (str_eq entry.prev_hash prev_hash) (prev_mismatch line_num)
          ++ (objection_unless (str_eq entry.chain_hash (hash_pair prev_hash entry.content_hash))
                (chain_mismatch line_num)
              ++ verify_from (line_num + 1) entry.chain_hash lines))

  -- `verify_chain`
  unfoldable pub verify_chain : List LedgerEntry → List ChainViolation
  unfolding verify_from
  verify_chain lines = verify_from 1 genesis_hash lines
