-- ===== src/Runtime/ToolGate/Sessions.antt =====
-- What the tool gate does over a life of binding, unbinding and requests.
use acds.Prelude.{
  ℕ, String, ◌≡◌, refl, inl, inr, true, false, none, some, List, [], ◌∷◌, ◌++◌, Result, ok, ◌>>=◌,
  arith, eq_iff, Text, All, Any, lookup, flag, subst, sym, ap, suc, length,
}
use acds.Runtime.Faults.{Fault, within_bounds, past_expiry}
use acds.Runtime.Artifacts.{Lease}
use acds.Runtime.Clock.{Platform, time_window}
use acds.Runtime.ToolGate.{
  ToolGate, CapabilityDecision, unbound, bind_lease, request_capability, authorize, needs_path,
  denied_key, filesystem_paths, decide, no_lease, lease_expired,
}
use acds.Runtime.ToolGate.Authority.{authorize_iff, Below, request_capability-gate}

-- A gate between two calls: it has nothing, or what the lease bound to it gives.
pub record IsConsistent (g : ToolGate) : Type 0 where
  pub nothing : g.lease ≡ none → g ≡ unbound
  pub of_lease :
      (l : Lease)
      → g.lease ≡ some l
      → (g.granted_capabilities ≡ l.granted_capabilities)
        × (g.denied_capabilities ≡ l.denied_capabilities)
        × (g.allowed_paths ≡ l.allowed_paths)
        × (l.revocation_status ≡ "active")

-- A call of a method that returns.
pub data Step (p : Platform) : ToolGate → ToolGate → Type 0 where
  bind : {g g' : ToolGate} (now : ℕ) (l : Lease) → bind_lease p now l ≡ ok g' → Step p g g'
  unbind : {g g' : ToolGate} → g' ≡ unbound → Step p g g'
  ask :
      {g g' : ToolGate} (now : ℕ) (name : String) (path : Text) (d : CapabilityDecision)
      → request_capability p now g name path ≡ ok (d, g')
      → Step p g g'

pub data Reach (p : Platform) : ToolGate → Type 0 where
  start : {g : ToolGate} → g ≡ unbound → Reach p g
  next : {g g' : ToolGate} → Reach p g → Step p g g' → Reach p g'

unbound-IsConsistent : IsConsistent unbound
unfolding unbound
unbound-IsConsistent = record { nothing = λ e. refl; of_lease = λ l e. cc }

bind_lease-IsConsistent :
    (p : Platform) (now : ℕ) (l : Lease) (g : ToolGate) → bind_lease p now l ≡ ok g → IsConsistent g
unfolding bind_lease
bind_lease-IsConsistent p now l g h = record {
  nothing = λ e. absurd (ground arith);
  of_lease = λ m e. ground (arith, eq_iff l.revocation_status "active");
}

Step-IsConsistent :
    (p : Platform) {g g' : ToolGate} → Step p g g' → IsConsistent g → IsConsistent g'
Step-IsConsistent p {g' = g'} (bind now l h) c = bind_lease-IsConsistent p now l g' h
Step-IsConsistent p (unbind e) c = subst IsConsistent (sym e) unbound-IsConsistent
Step-IsConsistent p {g = g} {g' = g'} (ask now name path d h) c =
    elim (request_capability-gate p now g g' name path d h) [
      | inl e ↦ subst IsConsistent (sym e) c
      | inr e ↦ subst IsConsistent (sym e) unbound-IsConsistent
    ]

-- A gate that was created, then bound, unbound and asked in any order, holds nothing, or exactly
-- the grants, denials and paths of a lease whose status is "active".
pub Reach-IsConsistent : (p : Platform) (g : ToolGate) → Reach p g → IsConsistent g
Reach-IsConsistent p g (start e) = subst IsConsistent (sym e) unbound-IsConsistent
Reach-IsConsistent p g (next {g = g₀} r s) = Step-IsConsistent p s (Reach-IsConsistent p g₀ r)

-- What a reachable gate authorizes, the lease bound to it carries: it is active and in its window,
-- does not deny the capability, and for a capability on files its own paths, or those of its
-- filesystem grant, hold the target.
pub authority_from_lease :
    (p : Platform) (now : ℕ) (g : ToolGate) (name : String) (path : Text)
    → Reach p g
    → authorize p now g name path ≡ ok (true, g)
    → (l : Lease) × (g.lease ≡ some l)
      × (l.revocation_status ≡ "active")
      × (time_window p now l.valid_from l.expires_at ≡ ok within_bounds)
      × (flag (denied_key p name) l.denied_capabilities ≡ false)
      × (needs_path name ≡ true
          → (fs_paths : List Text) × (filesystem_paths (lookup "filesystem" l.granted_capabilities)
              ≡ ok fs_paths)
            × Any (Below path) (l.allowed_paths ++ fs_paths))
authority_from_lease p now g name path r h =
    let a = (authorize_iff p now g name path).0 h in
    let (grants, denials, paths, active) = (Reach-IsConsistent p g r).of_lease a.bound a.is_bound in
    (
      a.bound,
      a.is_bound,
      active,
      a.in_window,
      rw denials at a.not_denied,
      λ n. let (fs, _, e, below) = (a.in_scope n).1 in (fs, rw grants at e, rw paths at below),
    )

-- The decisions of a sequence of requests, each with its instant.
abbrev pub session :
    Platform → ToolGate → List (ℕ × String × Text) → Result Fault (List CapabilityDecision)
session p g [] = ok []
session p g ((now, name, path) ∷ requests) = do
  answer ← request_capability p now g name path
  decisions ← session p answer.1 requests
  ok (answer.0 ∷ decisions)

session-unbound :
    (p : Platform) (requests : List (ℕ × String × Text))
    → (ds : List CapabilityDecision) × (session p unbound requests ≡ ok ds)
      × (length ds ≡ length requests)
      × All (λ d. d.allowed ≡ false) ds
unfolding request_capability
session-unbound p [] = ([], refl, refl, tt)
session-unbound p ((now, name, path) ∷ requests) =
    let (ds, e, n, h) = session-unbound p requests in
    (decide name path no_lease ∷ ds, rw e, ap suc n, (refl, h))

-- Once one request finds the lease past its expiry, the gate is shut for good: every request of the
-- sequence, whatever its instant, is answered by a refusal.
pub session-past_expiry :
    (p : Platform) (g : ToolGate) (l : Lease) (now : ℕ) (name : String) (path : Text)
    (requests : List (ℕ × String × Text))
    → g.lease ≡ some l
    → time_window p now l.valid_from l.expires_at ≡ ok past_expiry
    → (ds : List CapabilityDecision) × (session p g ((now, name, path) ∷ requests) ≡ ok ds)
      × (length ds ≡ suc (length requests))
      × All (λ d. d.allowed ≡ false) ds
unfolding request_capability
session-past_expiry p g l now name path requests e w =
    let (ds, s, n, h) = session-unbound p requests in
    (decide name path (lease_expired past_expiry) ∷ ds, simp (e, w, s), ap suc n, (refl, h))
