-- ===== src/Integration/Client/Traffic.antt =====
-- swarm/integration/acds_client.py: the calls that the attempts on one provider make.
use acds.Prelude.{
  ℕ, zero, suc, ◌+◌, ◌≤◌, String, ◌≡◌, refl, ap, ◌∙◌, Option, none, List, [], ◌∷◌, ◌++◌, arith, All,
  All-mono,
}
use mathlib.Core.List.{append_assoc}
use acds.Integration.Contracts.{CapabilityRequest}
use acds.Integration.Retry.{RetryStrategy}
use acds.Integration.Client.Attempts.{
  Provider, InferenceResult, Activity, called, slept, ClientState, Next, stop, again, settle,
  sleep_before, call_provider, Attempted, resume, attempts, execute_single,
}

-- A call is of a provider with the property; any sleep is permitted.
abbrev pub Permits : (String → Type 0) → Activity → Type 0
Permits P (called provider_id) = P provider_id
Permits P (slept ms) = Unit {0}

unfoldable pub calls : List Activity → ℕ
calls [] = 0
calls (called provider_id ∷ rest) = suc (calls rest)
calls (slept ms ∷ rest) = calls rest

calls-append : (xs ys : List Activity) → calls (xs ++ ys) ≡ calls xs + calls ys
unfolding calls
calls-append [] ys = omega arith
calls-append (called p ∷ xs) ys = omega (arith, calls-append xs ys)
calls-append (slept ms ∷ xs) ys = calls-append xs ys

All-append :
    (P : Activity → Type 0) (xs ys : List Activity) → All P xs → All P ys → All P (xs ++ ys)
All-append P [] ys a b = b
All-append P (x ∷ xs) ys a b = (a.0, All-append P xs ys a.1 b)

-- Between two states at most so many calls were made, all of providers with the property.
pub record Within {W : Type 0} (P : String → Type 0) (most : ℕ) (s s' : ClientState W)
    : Type 0 where
  pub latest : List Activity
  pub grown : s'.activity ≡ latest ++ s.activity
  pub permitted : All (Permits P) latest
  pub bounded : calls latest ≤ most

module _ {W : Type 0} where
  pub Within-none :
      (P : String → Type 0) (most : ℕ) (s s' : ClientState W)
      → s'.activity ≡ s.activity
      → Within P most s s'
  unfolding calls
  Within-none P most s s' e = record {
    latest = [];
    grown = e;
    permitted = tt;
    bounded = omega arith;
  }

  pub Within-trans :
      (P : String → Type 0) (n m : ℕ) (s s' s'' : ClientState W)
      → Within P n s s'
      → Within P m s' s''
      → Within P (n + m) s s''
  Within-trans P n m s s' s'' a b = record {
    latest = b.latest ++ a.latest;
    grown =
        b.grown ∙ ap (λ l. b.latest ++ l) a.grown ∙ append_assoc-sym b.latest a.latest s.activity;
    permitted = All-append (Permits P) b.latest a.latest b.permitted a.permitted;
    bounded = omega (arith, calls-append b.latest a.latest, a.bounded, b.bounded);
  }
    where
      append_assoc-sym : (x y z : List Activity) → x ++ (y ++ z) ≡ (x ++ y) ++ z
      append_assoc-sym x y z = simp append_assoc

  pub Within-mono :
      (P Q : String → Type 0) (n m : ℕ) (s s' : ClientState W)
      → ((p : String) → P p → Q p)
      → n ≤ m
      → Within P n s s'
      → Within Q m s s'
  Within-mono P Q n m s s' f le w = record {
    latest = w.latest;
    grown = w.grown;
    permitted = All-mono (weaken f) w.latest w.permitted;
    bounded = omega (arith, w.bounded);
  }
    where
      weaken : ((p : String) → P p → Q p) → (a : Activity) → Permits P a → Permits Q a
      weaken f (called p) h = f p h
      weaken f (slept ms) h = tt

  resume-Within :
      (P : String → Type 0) (rounds : ℕ)
      (rest : Option InferenceResult → ℕ → ClientState W → Attempted W)
      → ((l : Option InferenceResult) (t : ℕ) (u : ClientState W)
          → Within P rounds u (rest l t u).1)
      → (next : Next) (s s' : ClientState W) → Within P 1 s s'
      → Within P (suc rounds) s (resume rest next s').1
  unfolding resume
  resume-Within P rounds rest h (stop result latency) s s' w =
      Within-mono P P 1 (suc rounds) s s' (λ p x. x) (omega arith) w
  resume-Within P rounds rest h (again result latency) s s' w =
      let s'' = (rest result latency s').1 in
      Within-mono P P (1 + rounds) (suc rounds) s s'' (λ p x. x) (omega arith)
        (Within-trans P 1 rounds s s' s'' w (h result latency s'))

  module _ (req : CapabilityRequest) (provider_id : String) (client : Provider W)
      (strategy : RetryStrategy) where
    call-Within :
        (attempt : ℕ) (s : ClientState W)
        → Within
            (λ p. p ≡ provider_id)
            1
            s
            (call_provider req provider_id client (sleep_before strategy attempt s)).1
    unfolding call_provider sleep_before calls
    call-Within zero s = record {
      latest = called provider_id ∷ [];
      grown = refl;
      permitted = (refl, tt);
      bounded = omega arith;
    }
    call-Within (suc attempt) s = record {
      latest = called provider_id ∷ slept _ ∷ [];
      grown = refl;
      permitted = (refl, (tt, tt));
      bounded = omega arith;
    }

    attempts-Within :
        (rounds attempt : ℕ) (last_result : Option InferenceResult) (total : ℕ) (s : ClientState W)
        → Within
            (λ p. p ≡ provider_id)
            rounds
            s
            (attempts req provider_id client strategy rounds attempt last_result total s).1
    unfolding attempts
    attempts-Within zero attempt last_result total s = Within-none _ 0 s s refl
    attempts-Within (suc rounds) attempt last_result total s =
        let (generated, s') =
          call_provider req provider_id client (sleep_before strategy attempt s) in
        resume-Within (λ p. p ≡ provider_id) rounds
          (attempts req provider_id client strategy rounds (suc attempt))
          (λ l t u. attempts-Within rounds (suc attempt) l t u)
          (settle strategy attempt last_result total generated) s s' (call-Within attempt s)

    pub execute_single-Within :
        (s : ClientState W)
        → Within
            (λ p. p ≡ provider_id)
            (strategy.max_retries + 1)
            s
            (execute_single req provider_id client strategy s).1
    unfolding execute_single
    execute_single-Within s = attempts-Within (strategy.max_retries + 1) 0 none 0 s
