-- ===== src/Runtime/ToolGate/Authority.antt =====
-- Exactly when the tool gate authorizes, stated apart from its tests.
use acds.Prelude.{
  ℕ, String, ◌≡◌, ◌≢◌, ◌↔◌, ◌⊎◌, inl, inr, true, false, some, List, [], ◌∷◌, ◌++◌, ok, arith, Text,
  any, any_iff, Any, lookup, flag, strip_slash, slash, text_eq_iff, starts_with_iff, Bool-cases,
  Option-cases, Result-cases,
}
use acds.Runtime.Faults.{within_bounds}
use acds.Runtime.Paths.{covers_stripped}
use acds.Runtime.Artifacts.{Grant, Lease}
use acds.Runtime.Clock.{Platform, time_window}
use acds.Runtime.ToolGate.{
  ToolGate, cap_map, denied_key, needs_path, grant_flag, filesystem_paths, is_capability_granted,
  path_in_scope, judge, request_capability, CapabilityDecision, unbound, authorize, authorized,
}

-- The target is the directory `a` or below it, trailing slashes of either aside.
abbrev pub Below : Text → Text → Type 0
Below p a =
    (strip_slash p ≡ strip_slash a)
    ⊎ ((r : Text) × (strip_slash p ≡ (strip_slash a ++ slash ∷ []) ++ r))

pub covers_stripped_iff : (p a : Text) → (covers_stripped p a ≡ true) ↔ Below p a
unfolding covers_stripped
covers_stripped_iff p a = ground (
  arith,
  text_eq_iff (strip_slash p) (strip_slash a),
  starts_with_iff (strip_slash p) (strip_slash a ++ slash ∷ []),
)

-- A grant lets a capability through: writing needs `write`, the others need not to be refused.
abbrev pub Permits : String → Grant → Type 0
Permits capability g = grant_flag capability (some g) ≡ ok true

abbrev pub IsGranted : ToolGate → String → Type 0
IsGranted g capability =
    (key : String) × (grant : Grant) × (lookup capability cap_map ≡ some key)
    × (lookup key g.granted_capabilities ≡ some grant)
    × Permits capability grant

abbrev pub IsInScope : ToolGate → Text → Type 0
IsInScope g path =
    (fs_paths : List Text) × (g.allowed_paths ≢ [])
    × (filesystem_paths (lookup "filesystem" g.granted_capabilities) ≡ ok fs_paths)
    × Any (Below path) (g.allowed_paths ++ fs_paths)

pub record IsAuthorized (p : Platform) (now : ℕ) (g : ToolGate) (name : String) (path : Text)
    : Type 0 where
  pub bound : Lease
  pub is_bound : g.lease ≡ some bound
  pub in_window : time_window p now bound.valid_from bound.expires_at ≡ ok within_bounds
  pub not_denied : flag (denied_key p name) g.denied_capabilities ≡ false
  pub granted : IsGranted g name
  pub in_scope : needs_path name ≡ true → (path ≢ []) × IsInScope g path

IsGranted-iff :
    (g : ToolGate) (name : String) → (is_capability_granted g name ≡ ok true) ↔ IsGranted g name
unfolding is_capability_granted
IsGranted-iff g name = (
  λ h. elim (Option-cases (lookup name cap_map)) [
    | inl e ↦ absurd (ground arith)
    | inr (key, e) ↦ elim (Option-cases (lookup key g.granted_capabilities)) [
      | inl f ↦ absurd (ground arith)
      | inr (grant, f) ↦ (key, grant, e, f, ground arith)
    ]
  ],
  λ (key, grant, e, f, h). rw e (rw f h),
)

IsInScope-iff : (g : ToolGate) (path : Text) → (path_in_scope g path ≡ ok true) ↔ IsInScope g path
unfolding path_in_scope
IsInScope-iff g path = (
  λ h. elim (Result-cases (filesystem_paths (lookup "filesystem" g.granted_capabilities))) [
    | inl (fs, e) ↦
        let found : any (covers_stripped path) (g.allowed_paths ++ fs) ≡ true = ground arith in
        (fs, ground arith, e, (below fs).0 found)
    | inr (x, e) ↦ absurd (ground arith)
  ],
  λ (fs, ne, e, h). rw e (let found = (below fs).1 h in ground arith),
)
  where
    below :
        (fs : List Text)
        → (any (covers_stripped path) (g.allowed_paths ++ fs) ≡ true)
          ↔ Any (Below path) (g.allowed_paths ++ fs)
    below fs = any_iff _ (Below path) (covers_stripped_iff path) (g.allowed_paths ++ fs)

judge_iff :
    (p : Platform) (g : ToolGate) (name : String) (path : Text)
    → (judge p g name path ≡ ok authorized) ↔ (
        (flag (denied_key p name) g.denied_capabilities ≡ false)
        × IsGranted g name
        × (needs_path name ≡ true → (path ≢ []) × IsInScope g path))
unfolding judge
judge_iff p g name path = (
  λ h. (
    ground arith,
    (IsGranted-iff g name).0 (ground arith),
    λ n. (ground arith, (IsInScope-iff g path).0 (ground arith)),
  ),
  λ (d, gr, sc).
      let has = (IsGranted-iff g name).1 gr in
      elim (Bool-cases (needs_path name)) [
        | inl n ↦ let inside = (IsInScope-iff g path).1 (sc n).1 in ground (arith, (sc n).0)
        | inr n ↦ ground arith
      ],
)

-- The gate authorizes a request, and stays as it is, exactly when a lease is bound and in its
-- window, the capability is not denied and is granted, and, for a capability on files, the target
-- path is not empty and lies in the scope of the lease.
pub authorize_iff :
    (p : Platform) (now : ℕ) (g : ToolGate) (name : String) (path : Text)
    → (authorize p now g name path ≡ ok (true, g)) ↔ IsAuthorized p now g name path
unfolding authorize
authorize_iff p now g name path = (
  λ h. elim (Option-cases g.lease) [
    | inl e ↦ absurd (ground arith)
    | inr (l, e) ↦
        let w : time_window p now l.valid_from l.expires_at ≡ ok within_bounds = ground arith in
        let (d, gr, sc) = (judge_iff p g name path).0 (ground arith) in
        record {
          bound = l;
          is_bound = e;
          in_window = w;
          not_denied = d;
          granted = gr;
          in_scope = sc;
        }
  ],
  λ a.
      let j = (judge_iff p g name path).1 (a.not_denied, a.granted, a.in_scope) in
      simp (a.is_bound, a.in_window, j),
)

-- A request leaves the gate as it is, or unbinds it.
pub request_capability-gate :
    (p : Platform) (now : ℕ) (g g' : ToolGate) (name : String) (path : Text)
    (d : CapabilityDecision)
    → request_capability p now g name path ≡ ok (d, g')
    → (g' ≡ g) ⊎ (g' ≡ unbound)
unfolding request_capability
request_capability-gate p now g g' name path d h = ground arith

same_gate :
    (p : Platform) (now : ℕ) (g g' : ToolGate) (name : String) (path : Text)
    (d : CapabilityDecision)
    → request_capability p now g name path ≡ ok (d, g')
    → d.allowed ≡ true
    → g' ≡ g
unfolding request_capability
same_gate p now g g' name path d h t = ground arith

-- A request that is granted leaves the gate as it is, and the gate authorizes it.
pub request_capability-allowed :
    (p : Platform) (now : ℕ) (g g' : ToolGate) (name : String) (path : Text)
    (d : CapabilityDecision)
    → request_capability p now g name path ≡ ok (d, g')
    → d.allowed ≡ true
    → (g' ≡ g) × IsAuthorized p now g name path
request_capability-allowed p now g g' name path d h t =
    let same = same_gate p now g g' name path d h t in
    (same, (authorize_iff p now g name path).0 (unfold authorize in rw h (ground (arith, same, t))))
