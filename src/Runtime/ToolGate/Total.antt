-- ===== src/Runtime/ToolGate/Total.antt =====
-- When the tool gate answers every request, so that no request raises.
use acds.Prelude.{
  ℕ, String, ◌≡◌, inl, inr, Bool, true, false, some, ok, if◌then◌else◌, str_eq, Text, is_empty,
  lookup, flag, Bool-cases, Option-cases, Returns, Returns-bind,
}
use acds.Runtime.Faults.{Window, within_bounds, not_yet_valid, past_expiry}
use acds.Runtime.Artifacts.{Config, config, Lease}
use acds.Runtime.Clock.{Platform, IsPlatform}
use acds.Runtime.Lease.Grants.{AreConfigs}
use acds.Runtime.Lease.Times.{time_window-isoformat}
use acds.Runtime.ToolGate.{
  ToolGate, denied_key, needs_path, cap_map, write_flag, config_flag, is_capability_granted,
  path_in_scope, judge, judge_granted, request_capability, request_in, unbound,
}

-- Every request to the gate returns a decision.
abbrev pub Answers : Platform → ToolGate → Type 0
Answers p g =
    (n : ℕ) (name : String) (path : Text)
    → Returns (λ _. Unit {0}) (request_capability p n g name path)

pub unbound-Answers : (p : Platform) → Answers p unbound
unfolding request_capability
unbound-Answers p n name path = tt

granted-Returns :
    (g : ToolGate) (name : String)
    → AreConfigs g.granted_capabilities
    → Returns (λ _. Unit {0}) (is_capability_granted g name)
unfolding is_capability_granted
granted-Returns g name cfg = elim (Option-cases (lookup name cap_map)) [
  | inl e ↦ rw e tt
  | inr (key, e) ↦ rw e (elim (Option-cases (lookup key g.granted_capabilities)) [
    | inl f ↦ rw f tt
    | inr (grant, f) ↦
        let (c, k) = cfg key grant f in rw f (rw k (either (str_eq name "FILESYSTEM_WRITE") c))
  ])
]
  where
    either :
        (b : Bool) (c : Config)
        → Returns (λ _. Unit {0}) (if b then write_flag (config c) else ok (config_flag (config c)))
    either true c = tt
    either false c = tt

scope-Returns :
    (g : ToolGate) (path : Text)
    → AreConfigs g.granted_capabilities
    → Returns (λ _. Unit {0}) (path_in_scope g path)
unfolding path_in_scope
scope-Returns g path cfg = elim (Bool-cases (is_empty g.allowed_paths)) [
  | inl e ↦ rw e tt
  | inr n ↦ rw n (elim (Option-cases (lookup "filesystem" g.granted_capabilities)) [
    | inl f ↦ rw f tt
    | inr (grant, f) ↦ let (c, k) = cfg "filesystem" grant f in rw f (rw k tt)
  ])
]

judge-Returns :
    (p : Platform) (g : ToolGate) (name : String) (path : Text)
    → AreConfigs g.granted_capabilities
    → Returns (λ _. Unit {0}) (judge p g name path)
unfolding judge
judge-Returns p g name path cfg =
    elim (Bool-cases (flag (denied_key p name) g.denied_capabilities)) [
      | inl e ↦ rw e tt
      | inr n ↦ rw n (
          Returns-bind (λ _. Unit {0}) (λ _. Unit {0}) (is_capability_granted g name) _
            (granted-Returns g name cfg) λ b _ _. after b)
    ]
  where
    after : (b : Bool) → Returns (λ _. Unit {0}) (judge_granted g name path b)
    after false = tt
    after true = elim (Bool-cases (needs_path name)) [
      | inr n ↦ rw n tt
      | inl y ↦ rw y (elim (Bool-cases (is_empty path)) [
        | inl e ↦ rw e tt
        | inr n ↦ rw n (
            Returns-bind (λ _. Unit {0}) (λ _. Unit {0}) (path_in_scope g path) _
              (scope-Returns g path cfg) λ _ _ _. tt)
      ])
    ]

window-Returns :
    (p : Platform) (g : ToolGate) (name : String) (path : Text) (w : Window)
    → AreConfigs g.granted_capabilities
    → Returns (λ _. Unit {0}) (request_in p g name path w)
window-Returns p g name path within_bounds cfg =
    Returns-bind (λ _. Unit {0}) (λ _. Unit {0}) (judge p g name path) _
      (judge-Returns p g name path cfg) λ _ _ _. tt
window-Returns p g name path not_yet_valid cfg = tt
window-Returns p g name path past_expiry cfg = tt

-- A gate bound to a lease whose times were written by the platform, with dictionaries for grants,
-- answers every request.
pub bound-Answers :
    (p : Platform) (g : ToolGate) (l : Lease) (from until : ℕ)
    → IsPlatform p
    → g.lease ≡ some l
    → l.valid_from ≡ some (p.isoformat from)
    → l.expires_at ≡ some (p.isoformat until)
    → AreConfigs g.granted_capabilities
    → Answers p g
unfolding request_capability
bound-Answers p g l from until ip e a b cfg n name path =
    simp (e, a, b, time_window-isoformat p ip n from until) (window-Returns p g name path _ cfg)
