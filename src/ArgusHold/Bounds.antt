-- ===== src/ArgusHold/Bounds.antt =====
-- swarm/argus_hold/scope_guard.py: exactly which commands stay in scope.
use acds.Prelude.{
  Text, ◌≡◌, ◌≢◌, ◌↔◌, ◌⊎◌, refl, sym, subst, ◌∙◌, inl, inr, Bool, true, false, not, Option, none,
  some, List, [], ◌∷◌, ◌++◌, text_eq, text_eq_iff, codes, any_iff, Any, All, or_iff, iff_trans,
  iff_and, iff_or, not-true_iff, not_or_iff, if◌then◌else◌, is_empty,
}
use acds.Runtime.Paths.{covers, Inside, covers_iff}
use acds.ArgusHold.Models.{
  SideEffectLevel, read_only, controlled_generation, local_mutation, external_action, privileged,
  Config, CommandEnvelope, Objection, denied_pattern, no_write_roots, not_under_write_root,
}
use acds.ArgusHold.Scope.{
  Library, has_text, object_unless, under_roots, matches, pattern_violations, write_violations,
  resolved_violations, check_filesystem, check_network, scope_violations, check_scope,
}

empty-append :
    (xs ys : List Objection)
    → (is_empty (xs ++ ys) ≡ true) ↔ ((is_empty xs ≡ true) × (is_empty ys ≡ true))
empty-append [] ys = (λ h. (refl, h), λ h. h.1)
empty-append (x ∷ xs) ys = (λ h. absurd (cc), λ h. absurd (cc (h.0)))

empty-object : (b : Bool) (o : Objection) → (is_empty (object_unless b o) ≡ true) ↔ (b ≡ true)
empty-object true o = (λ h. refl, λ h. refl)
empty-object false o = (λ h. cc, λ h. cc)

has_text_iff : (t : Text) (ts : List Text) → (has_text t ts ≡ true) ↔ Any (λ u. t ≡ u) ts
unfolding has_text
has_text_iff t ts = any_iff (text_eq t) (λ u. t ≡ u) (text_eq_iff t) ts

module _ (lib : Library) (config : Config) where
  -- Below one of the roots, once these are resolved.
  abbrev pub UnderRoots : Text → List Text → Type 0
  UnderRoots resolved = Any (λ root. Inside resolved (lib.resolve root))

  -- The path resolves to one under a read root that no denied pattern matches, nor its name, and
  -- under a write root if the command changes files.
  pub record IsPathInScope (level : SideEffectLevel) (workspace_root raw_path : Text) : Type 0 where
    pub resolved : Text
    pub resolves : lib.resolve_in workspace_root raw_path ≡ some resolved
    pub readable : UnderRoots resolved config.allowed_read_roots
    pub not_denied :
        All
          (λ pattern.
            (lib.fnmatch resolved pattern ≡ false)
            × (lib.fnmatch (lib.name_of resolved) pattern ≡ false))
          config.denied_fs_patterns
    pub writable : (level ≢ local_mutation) ⊎ UnderRoots resolved config.allowed_write_roots

  -- The scheme is https or absent, the host not blocked, and an allowed one if any are listed.
  pub record IsUrlInScope (raw_url : Text) : Type 0 where
    pub https : (lib.scheme raw_url ≡ []) ⊎ (lib.scheme raw_url ≡ codes "https")
    pub not_blocked : ¬ Any (λ host. lib.hostname raw_url ≡ host) config.blocked_hosts
    pub listed :
        (config.allowed_hosts ≡ []) ⊎ Any (λ host. lib.hostname raw_url ≡ host) config.allowed_hosts

  abbrev pub PathInScope : SideEffectLevel → Text → Option Text → Type 0
  PathInScope level workspace_root none = Unit {0}
  PathInScope level workspace_root (some raw_path) = IsPathInScope level workspace_root raw_path

  abbrev pub UrlInScope : Option Text → Type 0
  UrlInScope none = Unit {0}
  UrlInScope (some raw_url) = IsUrlInScope raw_url

  under_roots_iff :
      (resolved : Text) (roots : List Text)
      → (under_roots lib config resolved roots ≡ true) ↔ UnderRoots resolved roots
  unfolding under_roots
  under_roots_iff resolved roots =
      any_iff (λ root. covers resolved (lib.resolve root))
        (λ root. Inside resolved (lib.resolve root))
        (λ root. covers_iff resolved (lib.resolve root)) roots

  empty_iff {ℓ} : {A : Type ℓ} (l : List A) → (is_empty l ≡ true) ↔ (l ≡ [])
  empty_iff [] = (λ h. refl, λ h. refl)
  empty_iff (x ∷ l) = (λ h. cc, λ h. cc)

  patterns_iff :
      (resolved : Text) (patterns : List Text)
      → (is_empty (pattern_violations lib config resolved patterns) ≡ true)
        ↔ All
            (λ pattern.
              (lib.fnmatch resolved pattern ≡ false)
              × (lib.fnmatch (lib.name_of resolved) pattern ≡ false))
            patterns
  unfolding pattern_violations matches
  patterns_iff resolved [] = (λ h. tt, λ h. refl)
  patterns_iff resolved (p ∷ patterns) =
      iff_trans
        (empty-append
          (object_unless (not (matches lib config resolved p)) (denied_pattern resolved p))
          (pattern_violations lib config resolved patterns))
        (iff_and
          (iff_trans (empty-object _ _)
            (not_or_iff (lib.fnmatch resolved p) (lib.fnmatch (lib.name_of resolved) p)))
          (patterns_iff resolved patterns))

  roots_iff :
      (resolved : Text) (roots : List Text) (o : Objection)
      → (is_empty (
            if is_empty roots
            then no_write_roots ∷ []
            else object_unless (under_roots lib config resolved roots) o)
          ≡ true)
        ↔ UnderRoots resolved roots
  roots_iff resolved [] o = (λ h. absurd (cc), λ h. absurd h)
  roots_iff resolved (r ∷ roots) o =
      iff_trans (empty-object _ o) (under_roots_iff resolved (r ∷ roots))

  writes_iff :
      (level : SideEffectLevel) (resolved : Text)
      → (is_empty (write_violations lib config level resolved) ≡ true)
        ↔ ((level ≢ local_mutation) ⊎ UnderRoots resolved config.allowed_write_roots)
  unfolding write_violations
  writes_iff read_only resolved = (λ h. inl (λ e. cc), λ h. refl)
  writes_iff controlled_generation resolved = (λ h. inl (λ e. cc), λ h. refl)
  writes_iff external_action resolved = (λ h. inl (λ e. cc), λ h. refl)
  writes_iff privileged resolved = (λ h. inl (λ e. cc), λ h. refl)
  writes_iff local_mutation resolved =
      let r = roots_iff resolved config.allowed_write_roots (not_under_write_root resolved) in
      (λ h. inr (r.0 h), λ h. r.1 (elim h [ inl n ↦ absurd (n refl) | inr u ↦ u ]))

  abbrev InScopeAt : SideEffectLevel → Text → Type 0
  InScopeAt level resolved =
      UnderRoots resolved config.allowed_read_roots
      × (All
            (λ pattern.
              (lib.fnmatch resolved pattern ≡ false)
              × (lib.fnmatch (lib.name_of resolved) pattern ≡ false))
            config.denied_fs_patterns
          × ((level ≢ local_mutation) ⊎ UnderRoots resolved config.allowed_write_roots))

  same_path : (a b : Text) → ◌≡◌ {A = Option Text} (some a) (some b) → a ≡ b
  same_path a b e = cc

  path_iff :
      (level : SideEffectLevel) (workspace_root : Text) (path : Option Text)
      → (is_empty (check_filesystem lib config level workspace_root path) ≡ true)
        ↔ PathInScope level workspace_root path
  unfolding check_filesystem resolved_violations
  path_iff level workspace_root none = (λ h. tt, λ h. refl)
  path_iff level workspace_root (some raw_path) =
      resolved_iff (lib.resolve_in workspace_root raw_path) refl
    where
      resolved_iff :
          (found : Option Text)
          → lib.resolve_in workspace_root raw_path ≡ found
          → (is_empty (resolved_violations lib config level raw_path found) ≡ true)
            ↔ IsPathInScope level workspace_root raw_path
      resolved_iff none e = (λ h. absurd (cc), λ h. absurd (cc (h.resolves, e)))
      resolved_iff (some r) e =
          let tests = iff_trans (empty-append _ _) (
            iff_and (iff_trans (empty-object _ _) (under_roots_iff r config.allowed_read_roots)) (
              iff_trans (empty-append _ _)
                (iff_and (patterns_iff r config.denied_fs_patterns) (writes_iff level r)))) in
          (
            λ h.
                let (a, (b, c)) = tests.0 h in
                record { resolved = r; resolves = e; readable = a; not_denied = b; writable = c },
            λ h. tests.1 (
                subst (InScopeAt level) (same_path h.resolved r (sym h.resolves ∙ e))
                  (h.readable, (h.not_denied, h.writable))),
          )

  network_iff :
      (url : Option Text) → (is_empty (check_network lib config url) ≡ true) ↔ UrlInScope url
  unfolding check_network
  network_iff none = (λ h. tt, λ h. refl)
  network_iff (some url) =
      let tests = iff_trans (empty-append _ _) (
        iff_and
          (iff_trans (empty-object _ _) (
            iff_trans (or_iff _ _)
              (iff_or (empty_iff (lib.scheme url)) (text_eq_iff (lib.scheme url) (codes "https")))))
          (iff_trans (empty-append _ _) (
            iff_and
              (iff_trans (empty-object _ _)
                (not-true_iff _ _ (has_text_iff (lib.hostname url) config.blocked_hosts)))
              (iff_trans (empty-object _ _) (
                iff_trans (or_iff _ _) (
                  iff_or (empty_iff config.allowed_hosts)
                    (has_text_iff (lib.hostname url) config.allowed_hosts))))))) in
      (
        λ h. let (a, (b, c)) = tests.0 h in record { https = a; not_blocked = b; listed = c },
        λ h. tests.1 (h.https, (h.not_blocked, h.listed)),
      )

  -- A command is in scope exactly when its path, if it has one, resolves to one under a read root
  -- that no denied pattern matches, and under a write root if the command's level is local mutation;
  -- and its URL, if it has one, has no scheme but https, a host that is not blocked, and an allowed one if any are
  -- listed.
  pub check_scope-in_scope_iff :
      (envelope : CommandEnvelope) (workspace_root : Text)
      → ((check_scope lib config envelope workspace_root).in_scope ≡ true) ↔ (
          PathInScope envelope.side_effect_level workspace_root envelope.parameters.path
          × UrlInScope envelope.parameters.url)
  unfolding check_scope scope_violations
  check_scope-in_scope_iff envelope workspace_root = iff_trans (empty-append _ _) (
      iff_and (path_iff envelope.side_effect_level workspace_root envelope.parameters.path)
        (network_iff envelope.parameters.url))
