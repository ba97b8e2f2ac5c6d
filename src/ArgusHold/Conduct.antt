-- ===== src/ArgusHold/Conduct.antt =====
-- swarm/argus_hold/dispatcher.py: what each stage of an envelope leaves.
use acds.Prelude.{
  String, Text, ◌≡◌, refl, sym, ap, subst, ◌+◌, ◌⊎◌, inl, inr, Bool, true, false, some, List, [],
  ◌∷◌, ◌++◌, map, Result, ok, err, not, is_empty, lookup, if◌then◌else◌, if_intro,
}
use acds.ArgusHold.Models.{
  CommandFault, artifact_error, CommandEnvelope, schema_error, StageResult, Spec, level_of,
}
use acds.ArgusHold.Policy.{evaluate_level, IsPermitted, evaluate_level-allowed_iff}
use acds.ArgusHold.Scope.{check_scope}
use acds.ArgusHold.Bounds.{PathInScope, UrlInScope, check_scope-in_scope_iff}
use acds.ArgusHold.Ledger.{LedgerEntry, LedgerState, next_entry, append_entry}
use acds.ArgusHold.Chains.{IsSound, append_entry-IsSound}
use acds.ArgusHold.Results.{
  AdapterResult, execution_error, unexpected, produced, CommandError, CommandResult, GatewayState,
  emit,
}
use acds.ArgusHold.Endings.{
  Gateway, can_emit, build_denied, build_failure, finish, after_adapter, execute_adapter,
}
use acds.ArgusHold.Dispatch.{
  validate_parameters, plan_and_execute, guard_scope, guard_policy, guard_parameters,
}

module _ {W : Type 0} (g : Gateway W) where
  open g use {
    config, lib, specs, schema_errors, adapter_of, is_adapter, perform, hash_content, hash_pair,
    fresh, now,
  }

  -- The command is registered at this level, its parameters fit its schema, its level is permitted,
  -- its path and host are in scope, and it is no dry run.
  pub record IsAuthorized (workspace_root : Text) (envelope : CommandEnvelope) : Type 0 where
    pub spec : Spec
    pub registered : lookup envelope.command_name specs ≡ some spec
    pub level : level_of spec.side_effect_level ≡ ok envelope.side_effect_level
    pub valid :
        (spec.schema_present ≡ false)
        ⊎ (schema_errors envelope.command_name envelope.parameters ≡ [])
    pub permitted : IsPermitted config envelope.side_effect_level
    pub path_in_scope :
        PathInScope lib config envelope.side_effect_level workspace_root envelope.parameters.path
    pub url_in_scope : UrlInScope lib config envelope.parameters.url
    pub live : envelope.dry_run ≡ false

  -- The command was not performed, or it was and is authorized.
  abbrev Acts : Text → CommandEnvelope → GatewayState W → GatewayState W → Type 0
  Acts workspace_root envelope s s' =
      ((s'.performed ≡ s.performed) × (s'.world ≡ s.world))
      ⊎ ((s'.performed ≡ envelope ∷ s.performed) × IsAuthorized workspace_root envelope)

  abbrev pub HasFailed : Result CommandFault CommandResult → Type 0
  HasFailed (ok result) = result.success ≡ false
  HasFailed (err fault) = ⊥

  -- The command has one entry of its own in a sound ledger; or none, and then it failed and nothing
  -- was performed, or its artifacts could not be written.
  pub record Governs (workspace_root : Text) (envelope : CommandEnvelope) (s : GatewayState W)
      (out : Result CommandFault CommandResult × GatewayState W) : Type 0 where
    pub acts : Acts workspace_root envelope s out.1
    pub sound : IsSound hash_content hash_pair out.1.ledger
    pub audited :
        ((e : LedgerEntry) × (out.1.ledger.lines ≡ s.ledger.lines ++ e ∷ [])
          × (e.entry_data.envelope_id ≡ envelope.envelope_id))
        ⊎ ((out.1.ledger ≡ s.ledger)
            × ((HasFailed out.0 × (out.1.performed ≡ s.performed))
                ⊎ (out.0 ≡ err (artifact_error envelope.envelope_id))))

  module _ (workspace_root : Text) (envelope : CommandEnvelope) (s : GatewayState W)
      (h : IsSound hash_content hash_pair s.ledger) where
    -- A state that differs from `s` at most in what was performed.
    record Stands (t : GatewayState W) : Type 0 where
      acted : Acts workspace_root envelope s t
      ledger : t.ledger ≡ s.ledger

    Stands-self : Stands s
    Stands-self = record { acted = inl (refl, refl); ledger = refl }

    appended-Governs :
        (result : Result CommandFault CommandResult) (stages : List StageResult) (outcome : String)
        (t : GatewayState W)
        → Stands t
        → Governs workspace_root envelope s (
          result,
          record t {
            ledger =
                append_entry hash_content hash_pair
                  (fresh t.issued)
                  now
                  envelope
                  stages
                  outcome
                  t.ledger;
            issued = t.issued + 1;
          },
        )
    unfolding append_entry next_entry
    appended-Governs result stages outcome t st = record {
      acts = st.acted;
      sound =
          append_entry-IsSound hash_content hash_pair (fresh t.issued) now envelope stages outcome
            t.ledger (subst (IsSound hash_content hash_pair) (sym st.ledger) h);
      audited = inl (
        next_entry hash_content hash_pair (fresh t.issued) now envelope stages outcome t.ledger,
        ap
            (λ (l : LedgerState).
              l.lines
              ++ next_entry hash_content hash_pair (fresh t.issued) now envelope stages outcome
                  t.ledger
                ∷ [])
            st.ledger,
        refl,
      );
    }

    unwritten-Governs :
        (t : GatewayState W)
        → Stands t
        → Governs workspace_root envelope s (err (artifact_error envelope.envelope_id), t)
    unwritten-Governs t st = record {
      acts = st.acted;
      sound = subst (IsSound hash_content hash_pair) (sym st.ledger) h;
      audited = inr (st.ledger, inr refl);
    }

    denied-Governs :
        (stages : List StageResult) (outcome : String) (t : GatewayState W)
        → Stands t
        → Governs workspace_root envelope s (build_denied g envelope stages outcome t)
    unfolding build_denied
    denied-Governs stages outcome t st =
        if_intro (Governs workspace_root envelope s)
          (can_emit g envelope (emit config stages false)) _ _ (λ y. appended-Governs _ _ _ t st)
          (λ n. unwritten-Governs t st)

    finish-Governs :
        (stages : List StageResult) (outcome : String) (t : GatewayState W)
        → Stands t
        → Governs workspace_root envelope s (finish g envelope stages outcome t)
    unfolding finish
    finish-Governs stages outcome t st =
        if_intro (Governs workspace_root envelope s)
          (not (can_emit g envelope (emit config stages true))) _ _ (λ n. unwritten-Governs t st)
          (λ y.
            if_intro (Governs workspace_root envelope s) (not (g.summarizes envelope.envelope_id)) _
              _ (λ n. appended-Governs _ _ _ t st) (λ z. appended-Governs _ _ _ t st))

    after_adapter-Governs :
        (stages : List StageResult) (result : AdapterResult) (t : GatewayState W)
        → Stands t
        → Governs workspace_root envelope s (after_adapter g envelope stages result t)
    unfolding after_adapter
    after_adapter-Governs stages (execution_error m) t st = denied-Governs _ _ t st
    after_adapter-Governs stages (unexpected m) t st = denied-Governs _ _ t st
    after_adapter-Governs stages (produced b) t st = finish-Governs _ _ t st

    failure-Governs :
        (stages : List StageResult) (message : CommandError)
        → Governs workspace_root envelope s (build_failure g stages message s)
    unfolding build_failure
    failure-Governs stages message = record {
      acts = inl (refl, refl);
      sound = h;
      audited = inr (refl, inl (refl, refl));
    }

    plan_and_execute-Governs :
        (stages : List StageResult)
        → (envelope.dry_run ≡ false → IsAuthorized workspace_root envelope)
        → Governs workspace_root envelope s (plan_and_execute g envelope workspace_root stages s)
    unfolding plan_and_execute execute_adapter
    plan_and_execute-Governs stages a =
        if_intro (Governs workspace_root envelope s) envelope.dry_run _ _
          (λ dry. finish-Governs _ _ s Stands-self)
          (λ live.
            if_intro (Governs workspace_root envelope s)
              (is_adapter (adapter_of envelope.command_name)) _ _
              (λ y.
                after_adapter-Governs _ _ _ (record { acted = inr (refl, a live); ledger = refl }))
              (λ n. failure-Governs _ _))

    guard_scope-Governs :
        (stages : List StageResult)
        → (PathInScope lib config envelope.side_effect_level workspace_root envelope.parameters.path
            → UrlInScope lib config envelope.parameters.url
            → envelope.dry_run ≡ false
            → IsAuthorized workspace_root envelope)
        → Governs workspace_root envelope s (guard_scope g envelope workspace_root stages s)
    unfolding guard_scope
    guard_scope-Governs stages a =
        if_intro (Governs workspace_root envelope s)
          (check_scope lib config envelope workspace_root).in_scope _ _
          (λ y.
            let both = (check_scope-in_scope_iff lib config envelope workspace_root).0 y in
            plan_and_execute-Governs _ (a both.0 both.1))
          (λ n. denied-Governs _ _ s Stands-self)

    guard_policy-Governs :
        (stages : List StageResult)
        → (IsPermitted config envelope.side_effect_level
            → PathInScope lib config envelope.side_effect_level workspace_root
                envelope.parameters.path
            → UrlInScope lib config envelope.parameters.url
            → envelope.dry_run ≡ false
            → IsAuthorized workspace_root envelope)
        → Governs workspace_root envelope s (guard_policy g envelope workspace_root stages s)
    unfolding guard_policy
    guard_policy-Governs stages a =
        if_intro (Governs workspace_root envelope s)
          (evaluate_level config envelope.side_effect_level).allowed _ _
          (λ y.
            guard_scope-Governs _
              (a ((evaluate_level-allowed_iff config envelope.side_effect_level).0 y)))
          (λ n. denied-Governs _ _ s Stands-self)

    no_errors :
        (present : Bool) (errors : List String)
        → is_empty (if present then map schema_error errors else []) ≡ true
        → (present ≡ false) ⊎ (errors ≡ [])
    no_errors true [] e = inr refl
    no_errors true (x ∷ errors) e = absurd (cc)
    no_errors false errors e = inl refl

    pub guard_parameters-Governs :
        (spec : Spec) (stages : List StageResult)
        → lookup envelope.command_name specs ≡ some spec
        → level_of spec.side_effect_level ≡ ok envelope.side_effect_level
        → Governs workspace_root envelope s
            (guard_parameters g envelope spec workspace_root stages s)
    unfolding guard_parameters
    guard_parameters-Governs spec stages e l =
        if_intro (Governs workspace_root envelope s)
          (is_empty (validate_parameters g envelope spec).errors) _ _
          (λ y. guard_policy-Governs _ (λ permitted path url live. record {
            spec = spec;
            registered = e;
            level = l;
            valid =
                no_errors spec.schema_present
                  (schema_errors envelope.command_name envelope.parameters) y;
            permitted = permitted;
            path_in_scope = path;
            url_in_scope = url;
            live = live;
          }))
          (λ n. denied-Governs _ _ s Stands-self)
