-- ===== src/ArgusHold/Scope.antt =====
-- swarm/argus_hold/scope_guard.py: which paths and hosts a command may reach.
use acds.Prelude.{
  Text, Bool, true, false, not, ◌||◌, Option, none, some, List, [], ◌∷◌, ◌++◌, if◌then◌else◌,
  text_eq, codes, any, is_empty,
}
use acds.Runtime.Paths.{covers}
use acds.ArgusHold.Models.{
  SideEffectLevel, read_only, controlled_generation, local_mutation, external_action, privileged,
  Config, CommandEnvelope, Objection, invalid_path, not_under_read_root, not_under_write_root,
  no_write_roots, denied_pattern, not_https, blocked_host, not_allowed_host, ScopeCheck,
}

-- pathlib, fnmatch and urllib. A resolved path has no `..` and no slash at its end, so that
-- `is_relative_to` is the test of containment.
pub record Library : Type 0 where
  -- `(workspace_root / raw_path).resolve()`; `none` for a `ValueError` or an `OSError`
  pub resolve_in : Text → Text → Option Text
  -- `Path(root).resolve()`
  pub resolve : Text → Text
  -- `path.name`
  pub name_of : Text → Text
  pub fnmatch : Text → Text → Bool
  -- `urlparse(url).hostname or ""` and `.scheme`, of a URL that `urlparse` parses; its `ValueError`
  -- for another would leave the dispatcher, and such a URL is outside the model
  pub hostname : Text → Text
  pub scheme : Text → Text

abbrev pub is_mutation : SideEffectLevel → Bool
is_mutation read_only = false
is_mutation controlled_generation = false
is_mutation local_mutation = true
is_mutation external_action = false
is_mutation privileged = false

-- `host in hosts`
unfoldable pub has_text : Text → List Text → Bool
unfolding any text_eq
has_text t = any (text_eq t)

-- Objections of one test.
abbrev pub object_unless : Bool → Objection → List Objection
object_unless true objection = []
object_unless false objection = objection ∷ []

module _ (lib : Library) (config : Config) where
  -- `any(_is_relative_to(resolved, root) for root in roots)`
  unfoldable pub under_roots : Text → List Text → Bool
  unfolding any covers
  under_roots resolved roots = any (λ root. covers resolved (lib.resolve root)) roots

  unfoldable pub matches : Text → Text → Bool
  matches resolved pattern =
      lib.fnmatch resolved pattern || lib.fnmatch (lib.name_of resolved) pattern

  -- The loop over `denied_fs_patterns`.
  unfoldable pub pattern_violations : Text → List Text → List Objection
  unfolding matches
  pattern_violations resolved [] = []
  pattern_violations resolved (pattern ∷ patterns) =
      object_unless (not (matches resolved pattern)) (denied_pattern resolved pattern)
      ++ pattern_violations resolved patterns

  -- "Write commands must be within allowed_write_roots."
  unfoldable pub write_violations : SideEffectLevel → Text → List Objection
  unfolding under_roots
  write_violations level resolved =
      if is_mutation level
      then (if is_empty config.allowed_write_roots
          then no_write_roots ∷ []
          else object_unless (under_roots resolved config.allowed_write_roots)
              (not_under_write_root resolved))
      else []

  unfoldable pub resolved_violations : SideEffectLevel → Text → Option Text → List Objection
  unfolding under_roots pattern_violations write_violations
  resolved_violations level raw_path none = invalid_path raw_path ∷ []
  resolved_violations level raw_path (some resolved) =
      object_unless (under_roots resolved config.allowed_read_roots) (not_under_read_root resolved)
      ++ (pattern_violations resolved config.denied_fs_patterns ++ write_violations level resolved)

  -- `_check_filesystem`
  unfoldable pub check_filesystem : SideEffectLevel → Text → Option Text → List Objection
  unfolding resolved_violations
  check_filesystem level workspace_root none = []
  check_filesystem level workspace_root (some raw_path) =
      resolved_violations level raw_path (lib.resolve_in workspace_root raw_path)

  -- `_check_network`
  unfoldable pub check_network : Option Text → List Objection
  unfolding has_text
  check_network none = []
  check_network (some raw_url) =
      object_unless (is_empty (lib.scheme raw_url) || text_eq (lib.scheme raw_url) (codes "https"))
        (not_https (lib.scheme raw_url))
      ++ (object_unless (not (has_text (lib.hostname raw_url) config.blocked_hosts))
            (blocked_host (lib.hostname raw_url))
          ++ object_unless
              (is_empty config.allowed_hosts
                || has_text (lib.hostname raw_url) config.allowed_hosts)
              (not_allowed_host (lib.hostname raw_url)))

  abbrev checked_path : Text → Option Text → List Text
  checked_path workspace_root none = []
  checked_path workspace_root (some raw_path) = elim (lib.resolve_in workspace_root raw_path) [
    | none ↦ []
    | some resolved ↦ resolved ∷ []
  ]

  abbrev checked_host : Option Text → List Text
  checked_host none = []
  checked_host (some raw_url) = lib.hostname raw_url ∷ []

  unfoldable pub scope_violations : CommandEnvelope → Text → List Objection
  unfolding check_filesystem check_network
  scope_violations envelope workspace_root =
      check_filesystem envelope.side_effect_level workspace_root envelope.parameters.path
      ++ check_network envelope.parameters.url

  -- `ScopeGuard.check`
  unfoldable pub check_scope : CommandEnvelope → Text → ScopeCheck
  unfolding scope_violations
  check_scope envelope workspace_root = record {
    in_scope = is_empty (scope_violations envelope workspace_root);
    checked_paths = checked_path workspace_root envelope.parameters.path;
    checked_hosts = checked_host envelope.parameters.url;
    violations = scope_violations envelope workspace_root;
  }
