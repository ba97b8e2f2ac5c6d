-- ===== src/Examples/Commands.antt =====
-- A gateway with one command that writes a file, and a ledger.
use acds.Prelude.{
  ℕ, ◌+◌, String, inl, ◌≡◌, ◌↔◌, refl, true, false, none, some, List, [], ◌∷◌, codes,
}
use acds.ArgusHold.Models.{Config, Parameters, CommandEnvelope, CommandAction, local_mutation}
use acds.ArgusHold.Policy.{IsPermitted, evaluate_level, evaluate_level-allowed_iff}
use acds.ArgusHold.Scope.{Library, check_scope}
use acds.ArgusHold.Bounds.{PathInScope, UrlInScope, check_scope-in_scope_iff}
use acds.ArgusHold.Ledger.{
  EntryData, LedgerEntry, LedgerState, genesis_hash, open_ledger, append_entry, verify_chain,
}
use acds.ArgusHold.Chains.{IsSound, append_entry-IsSound}
use acds.ArgusHold.Tampering.{verify_chain_unique}
use acds.ArgusHold.Results.{produced, GatewayState}
use acds.ArgusHold.Endings.{Gateway}

abbrev one_root : Config
one_root = record {
  allowed_read_roots = codes "/ws" ∷ [];
  allowed_write_roots = codes "/ws" ∷ [];
  denied_fs_patterns = [];
  allowed_hosts = [];
  blocked_hosts = codes "localhost" ∷ [];
  max_privilege_level = 4;
  emit_stage_artifacts = true;
}

abbrev plain_paths : Library
plain_paths = record {
  resolve_in = λ root path. some path;
  resolve = λ path. path;
  name_of = λ path. path;
  fnmatch = λ path pattern. false;
  hostname = λ url. url;
  scheme = λ url. [];
}

abbrev write_a : Parameters
write_a = record { path = some (codes "/ws/a"); url = none; others = [] }

abbrev envelope : CommandEnvelope
envelope = record {
  envelope_id = "env-1";
  command_name = "filesystem.write_file";
  parameters = write_a;
  side_effect_level = local_mutation;
  run_id = "run-1";
  swarm_id = "swarm";
  dry_run = false;
}

evaluate_level-allowed_iff_example :
    ((evaluate_level one_root local_mutation).allowed ≡ true) ↔ IsPermitted one_root local_mutation
evaluate_level-allowed_iff_example = evaluate_level-allowed_iff one_root local_mutation

check_scope-in_scope_iff_example :
    ((check_scope plain_paths one_root envelope (codes "/ws")).in_scope ≡ true) ↔ (
      PathInScope plain_paths one_root local_mutation (codes "/ws") (some (codes "/ws/a"))
      × UrlInScope plain_paths one_root none)
check_scope-in_scope_iff_example =
    check_scope-in_scope_iff plain_paths one_root envelope (codes "/ws")

abbrev hash_content : EntryData → String
hash_content e = e.entry_id

abbrev hash_pair : String → String → String
hash_pair a b = b

abbrev empty_ledger : LedgerState
empty_ledger = record { lines = []; prev_hash = genesis_hash; sequence = 0 }

empty-IsSound : IsSound hash_content hash_pair empty_ledger
unfolding open_ledger verify_chain
empty-IsSound = record { verifies = refl; numbered = tt; reopened = refl }

append_entry-IsSound_example :
    IsSound hash_content hash_pair
      (append_entry hash_content hash_pair "e-1" "now" envelope [] "executed" empty_ledger)
append_entry-IsSound_example =
    append_entry-IsSound hash_content hash_pair "e-1" "now" envelope [] "executed" empty_ledger
      empty-IsSound

abbrev gateway : Gateway ℕ
gateway = record {
  config = one_root;
  lib = plain_paths;
  specs =
      (
        "filesystem.write_file",
        record { side_effect_level = some "local_mutation"; schema_present = true },
      )
      ∷ [];
  schema_errors = λ name parameters. [];
  adapter_of = λ name. codes "filesystem";
  is_adapter = λ name. true;
  perform = λ name e root world. (produced none, world + 1);
  hash_content = hash_content;
  hash_pair = hash_pair;
  emits = λ id files. true;
  summarizes = λ id. true;
  fresh = λ n. "id";
  now = "now";
}

abbrev write_action : CommandAction
write_action = record { tool_name = "filesystem.write_file"; parameters = write_a; dry_run = false }

abbrev idle : GatewayState ℕ
idle = record { world = 0; performed = []; ledger = empty_ledger; issued = 0 }

-- A ledger of one entry, as it was written and as it was read back.
abbrev line : LedgerEntry
line = record {
  entry_data = record {
    entry_id = "e-1";
    sequence_number = 0;
    timestamp = "now";
    run_id = "run-1";
    envelope_id = "env-1";
    command_name = "filesystem.write_file";
    stage_summary = [];
    outcome = "executed";
  };
  content_hash = "e-1";
  prev_hash = genesis_hash;
  chain_hash = "e-1";
}

verify_chain_unique_example : ◌≡◌ {A = List LedgerEntry} (line ∷ []) (line ∷ [])
unfolding verify_chain
verify_chain_unique_example =
    verify_chain_unique hash_content hash_pair (line ∷ []) (line ∷ [])
      (inl refl, inl (refl, refl), tt) refl refl refl refl
