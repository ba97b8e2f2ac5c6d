-- ===== src/Runtime/Clock.antt =====
-- Instants and their texts: Python's `datetime` (and `str.lower`), which the source calls, as the
-- parameter `Platform`. An instant is a number of microseconds.
use acds.Prelude.{
  ℕ, String, ◌≡◌, Bool, false, Option, none, some, Result, ok, err, ◌>>=◌, if◌then◌else◌, str_eq,
  ltb,
}
use acds.Runtime.Faults.{Fault, bad_timestamp, Window, not_yet_valid, past_expiry, within_bounds}

pub record Platform : Type 0 where
  -- `datetime.isoformat` of an instant in UTC
  pub isoformat : ℕ → String
  -- the instant that `datetime.fromisoformat` reads; `none` where it raises, or where the result
  -- has no time zone and so raises when it is compared with `now`
  pub fromisoformat : String → Option ℕ
  -- `str.lower`
  pub lower : String → String

-- `fromisoformat` reads what `isoformat` wrote, which is never empty.
pub record IsPlatform (p : Platform) : Type 0 where
  pub reads_back : (t : ℕ) → p.fromisoformat (p.isoformat t) ≡ some t
  pub not_empty : (t : ℕ) → str_eq (p.isoformat t) "" ≡ false

abbrev instant : String → Option ℕ → Result Fault (Option ℕ)
instant s none = err (bad_timestamp s)
instant s (some t) = ok (some t)

-- A time field is read only if it is there and not empty.
unfoldable pub read_time : Platform → Option String → Result Fault (Option ℕ)
read_time p none = ok none
read_time p (some s) = if str_eq s "" then ok none else instant s (p.fromisoformat s)

-- `now < valid_from`
abbrev pub is_early : ℕ → Option ℕ → Bool
is_early now none = false
is_early now (some t) = ltb now t

-- `now > expires_at`
abbrev pub is_late : ℕ → Option ℕ → Bool
is_late now none = false
is_late now (some t) = ltb t now

-- The two tests that the lease manager and the tool gate make of a lease's times.
unfoldable pub time_window : Platform → ℕ → Option String → Option String → Result Fault Window
unfolding read_time
time_window p now valid_from expires_at = do
  from ← read_time p valid_from
  if is_early now from then ok not_yet_valid else do
    until ← read_time p expires_at
    ok (if is_late now until then past_expiry else within_bounds)
