-- ===== src/ArgusHold/Governed.antt =====
-- swarm/argus_hold/dispatcher.py: no adapter is called but for an authorized command, and what is done
-- is in the ledger.
use acds.Prelude.{Text, ◌≡◌, ◌⊎◌, false, none, Result, ok, err, lookup}
use acds.ArgusHold.Models.{CommandEnvelope, CommandAction, CommandFault}
use acds.ArgusHold.Results.{CommandResult, GatewayState}
use acds.ArgusHold.Endings.{Gateway}
use acds.ArgusHold.Conduct.{Governs}

module _ {W : Type 0} (g : Gateway W) where
  open g use {
    config, lib, specs, schema_errors, adapter_of, is_adapter, perform, hash_content, hash_pair,
    fresh, now,
  }

  -- The call is governed, under the envelope of the action.
  abbrev pub IsGoverned :
      CommandAction
      → Text
      → GatewayState W
      → Result CommandFault CommandResult × GatewayState W
      → Type 0
  IsGoverned action workspace_root s out =
      (envelope : CommandEnvelope) × (envelope.command_name ≡ action.tool_name)
      × (envelope.parameters ≡ action.parameters)
      × (envelope.dry_run ≡ action.dry_run)
      × Governs g workspace_root envelope s out

  -- What a call of the gateway leaves: an action whose specification has no proper level raises and
  -- changes nothing; an unregistered one fails and changes nothing; any other is governed, under
  -- the envelope that the action and the specification give.
  abbrev pub Dispatched :
      CommandAction
      → Text
      → GatewayState W
      → Result CommandFault CommandResult × GatewayState W
      → Type 0
  Dispatched action workspace_root s (err fault, s') =
      (s' ≡ s) ⊎ IsGoverned action workspace_root s (err fault, s')
  Dispatched action workspace_root s (ok result, s') =
      ((lookup action.tool_name specs ≡ none) × (result.success ≡ false) × (s' ≡ s))
      ⊎ IsGoverned action workspace_root s (ok result, s')
