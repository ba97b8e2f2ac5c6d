-- ===== src/Runtime/Lease/Times.antt =====
-- When a lease is valid: `check_lease_validity` over the life of a lease that `issue_lease` made.
use acds.Prelude.{ℕ, ◌+◌, ◌*◌, String, ◌≡◌, ◌↔◌, some, ok, arith, eq_iff, if◌then◌else◌, ltb}
use acds.Runtime.Faults.{within_bounds, not_yet_valid, past_expiry}
use acds.Runtime.Artifacts.{Plan, Lease}
use acds.Runtime.Signer.{Crypto, lease_signable, sign_and_attach-form}
use acds.Runtime.Clock.{Platform, IsPlatform, time_window, read_time}
use acds.Runtime.Lease.{
  Capabilities, issue_lease, valid, early, expired, check_lease_validity, issuer,
}

read_time-isoformat :
    (p : Platform) → IsPlatform p → (t : ℕ) → read_time p (some (p.isoformat t)) ≡ ok (some t)
unfolding read_time
read_time-isoformat p h t = rw (h.not_empty t) (rw (h.reads_back t))

pub time_window-isoformat :
    (p : Platform)
    → IsPlatform p
    → (now from until : ℕ)
    → time_window p now (some (p.isoformat from)) (some (p.isoformat until))
      ≡ ok (
          if ltb now from
          then not_yet_valid
          else if ltb until now
          then past_expiry
          else within_bounds)
unfolding time_window
time_window-isoformat p h now from until =
    rw (read_time-isoformat p h from) (rw (read_time-isoformat p h until) (ground arith))

-- A lease issued at `t` for `d` seconds is early before `t`, valid from `t` to `t + d` seconds, both
-- included, and expired after that; it is never anything else.
pub check_lease_validity-issue_lease :
    (c : Crypto) (p : Platform) (t : ℕ) (lease_id : String) (plan : Plan) (caps : Capabilities)
    (d : ℕ) (node_id : String) (l : Lease)
    → IsPlatform p
    → issue_lease c p t lease_id plan caps d node_id ≡ ok l
    → (now : ℕ)
    → check_lease_validity p now l
      ≡ ok (if ltb now t then early else if ltb (t + d * 1000000) now then expired else valid)
unfolding issue_lease
check_lease_validity-issue_lease c p t lease_id plan caps d node_id l h e now =
    let (g, form) = sign_and_attach-form c issuer _ l e in
    rw form (
      unfold check_lease_validity in
      rw (time_window-isoformat p h now t (t + d * 1000000)) (ground arith))

-- A lease is found valid exactly when its status is "active" and the instant lies in its window.
pub check_lease_validity-eq-valid :
    (p : Platform) (now : ℕ) (l : Lease)
    → (check_lease_validity p now l ≡ ok valid) ↔ (
        (l.revocation_status ≡ "active")
        × (time_window p now l.valid_from l.expires_at ≡ ok within_bounds))
unfolding check_lease_validity
check_lease_validity-eq-valid p now l =
    (λ h. ground (arith, eq_iff l.revocation_status "active"), λ h. simp (h.0, h.1))
