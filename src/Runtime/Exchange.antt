-- ===== src/Runtime/Exchange.antt =====
-- runtime/exchange/ingress.py: what is decided about a file from the other node, and where it goes.
pub mod Files
pub mod Names
pub mod Acceptance
pub mod Moves
pub mod Settling
pub mod Intake
pub mod Receipts
use acds.Prelude.{
  ℕ, String, Text, Bool, true, false, not, ◌&&◌, ◌||◌, Option, none, some, List, [], ◌∷◌, map,
  Result, ok, err, ◌==◌, if◌then◌else◌, str_eq, text_eq, has_part, codes, contains, any, all,
  is_empty, keep, insert, lookup,
}
use acds.Prelude.States.{Exec, lift, ◌>>=◌, ◌>>◌}
use acds.Runtime.Faults.{Fault}
use acds.Runtime.Exchange.Files.{Directory, remove, sorted_names}

-- A file: no JSON, a number, Boolean or null, or a value that `in` looks into.
pub data Content (J : Type 0) : Type 0 where
  unreadable : Content J
  scalar : J → Content J
  container : J → Content J

-- `FORBIDDEN_FROM_M2`
unfoldable pub forbidden_from_m2 : List String
forbidden_from_m2 =
    "execution_plan" ∷ "capability_lease" ∷ "execution_record" ∷ "node_identity" ∷ "key_registry"
    ∷ []

-- `ALLOWED_FROM_M2`
unfoldable pub allowed_from_m2 : List String
allowed_from_m2 =
    "behavior_proposal" ∷ "research_brief" ∷ "analysis_note" ∷ "source_map" ∷ "post_pack"
    ∷ "publication_summary" ∷ "link_bundle" ∷ []

unfoldable pub forbidden_markers : List (String × List String)
forbidden_markers =
    ("execution_plan", "plan_id" ∷ "steps" ∷ "required_capabilities" ∷ [])
    ∷ ("capability_lease", "lease_id" ∷ "granted_capabilities" ∷ [])
    ∷ ("execution_record", "record_id" ∷ "execution_status" ∷ "actions" ∷ [])
    ∷ ("node_identity", "node_id" ∷ "node_role" ∷ "attestation_key_fingerprint" ∷ [])
    ∷ ("key_registry", "registry_version" ∷ "active_keys" ∷ [])
    ∷ []

-- A constructor for each reason.
pub data RejectReason : Type 0 where
  parse_failed : RejectReason
  has_markers : String → RejectReason
  forbidden_type : String → RejectReason
  schema_failed : List String → RejectReason

pub data Judgement : Type 0 where
  take_in : String → Judgement
  turn_away : RejectReason → Judgement

-- `in` on a number raises a `TypeError`; a file that is gone cannot be moved; signing may raise.
pub data IngressFault : Type 0 where
  type_error no_such_file : IngressFault
  unsigned : Fault → IngressFault

pub record Ingress (J : Type 0) : Type 0 where
  pub quarantine : Directory (Content J)
  pub validated : Directory (Content J)
  pub rejected : Directory (Content J)

-- A result of `process_quarantine`, without its time: the directory is by the verdict.
pub record Outcome : Type 0 where
  pub file_name : String
  pub verdict : Judgement

-- `t.replace("_", "-")`
unfoldable pub dashed : Text → Text
dashed t = map (λ c. if c == b'_' then b'-' else c) t

-- `has` is `key in artifact`, `schema_errors` the schema library's findings for a behaviour
-- proposal, `stem_lower` a name's `Path(name).stem.lower()`, and `type_order` the order in which
-- Python walks the union of the two sets of types.
module _ {J : Type 0} (has : J → String → Bool) (schema_errors : J → List String)
    (stem_lower : String → Text) (type_order : List String) where
  -- The loop over the markers: the first type all of whose markers are there.
  unfoldable pub marked_as : J → List (String × List String) → Option String
  unfolding all
  marked_as artifact [] = none
  marked_as artifact ((forbidden, markers) ∷ rest) =
      if all (has artifact) markers then some forbidden else marked_as artifact rest

  -- The loop over the types: the first whose name is in the file's.
  unfoldable pub named_type : Text → List String → String
  unfolding has_part dashed
  named_type name [] = "unknown"
  named_type name (artifact_type ∷ rest) =
      if has_part (dashed (codes artifact_type)) name || has_part (codes artifact_type) name
      then artifact_type
      else named_type name rest

  -- `_infer_type`
  unfoldable pub infer_type : String → J → String
  unfolding named_type
  infer_type file_name artifact =
      if has artifact "proposal_id"
      then "behavior_proposal"
      else named_type (stem_lower file_name) type_order

  unfoldable pub judge_type : J → String → Judgement
  judge_type artifact artifact_type =
      if contains artifact_type forbidden_from_m2
      then turn_away (forbidden_type artifact_type)
      else if str_eq artifact_type "behavior_proposal" && not (is_empty (schema_errors artifact))
      then turn_away (schema_failed (schema_errors artifact))
      else take_in artifact_type

  unfoldable pub judge_unmarked : String → J → Option String → Judgement
  unfolding judge_type infer_type
  judge_unmarked file_name artifact (some forbidden) = turn_away (has_markers forbidden)
  judge_unmarked file_name artifact none = judge_type artifact (infer_type file_name artifact)

  -- The tests of `_process_artifact`.
  unfoldable pub judge_file : String → Content J → Result IngressFault Judgement
  unfolding judge_unmarked marked_as
  judge_file file_name unreadable = ok (turn_away parse_failed)
  judge_file file_name (scalar artifact) = err type_error
  judge_file file_name (container artifact) =
      ok (judge_unmarked file_name artifact (marked_as artifact forbidden_markers))

  -- `_accept` and `_reject`: `shutil.move`, which replaces a file of the same name.
  unfoldable pub move : String → Content J → Judgement → Ingress J → Ingress J
  unfolding remove insert
  move file_name content (take_in artifact_type) s = record s {
    quarantine = remove file_name s.quarantine;
    validated = insert file_name content s.validated;
  }
  move file_name content (turn_away reason) s = record s {
    quarantine = remove file_name s.quarantine;
    rejected = insert file_name content s.rejected;
  }

  unfoldable pub settle_as : String → Content J → Judgement → Exec (Ingress J) IngressFault Outcome
  unfolding move
  settle_as file_name content verdict s =
      (ok (record { file_name = file_name; verdict = verdict }), move file_name content verdict s)

  unfoldable pub process_found : String → Option (Content J) → Exec (Ingress J) IngressFault Outcome
  unfolding settle_as judge_file
  process_found file_name none s = (err no_such_file, s)
  process_found file_name (some content) s =
      (lift (judge_file file_name content) >>= settle_as file_name content) s

  -- `_process_artifact`
  unfoldable pub process_artifact : String → Exec (Ingress J) IngressFault Outcome
  unfolding process_found lookup
  process_artifact file_name s = process_found file_name (lookup file_name s.quarantine) s

  unfoldable pub process_all : List String → Exec (Ingress J) IngressFault (List Outcome)
  unfolding process_artifact
  process_all [] = lift (ok [])
  process_all (file_name ∷ rest) = do
    outcome ← process_artifact file_name
    outcomes ← process_all rest
    lift (ok (outcome ∷ outcomes))

  -- `process_quarantine`
  unfoldable pub process_quarantine : Exec (Ingress J) IngressFault (List Outcome)
  unfolding process_all sorted_names
  process_quarantine s = process_all (sorted_names s.quarantine) s
