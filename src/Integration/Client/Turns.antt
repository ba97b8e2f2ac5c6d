-- ===== src/Integration/Client/Turns.antt =====
-- swarm/integration/acds_client.py: how often a request calls each provider.
use acds.Prelude.{
  ℕ, zero, suc, ◌+◌, ◌≤◌, String, ◌≡◌, refl, ap, ◌∙◌, subst, inl, inr, Bool, true, false, not, ◌||◌,
  Option, none, some, List, [], ◌∷◌, ◌++◌, arith, Result, ok, err, Result-cases, eq_iff, All, keep,
  contains, length, lookup, str_eq, if◌then◌else◌, Bool-cases,
}
use acds.Prelude.States.{Exec, lift, ◌>>=◌}
use acds.Integration.Contracts.{CapabilityRequest}
use acds.Integration.Policy.{evaluate}
use acds.Integration.Retry.{Fault, RetryStrategy}
use acds.Integration.Client.Attempts.{
  Provider, InferenceResult, Activity, called, slept, ClientState, execute_single,
}
use acds.Integration.Client.Scoring.{get_capable_providers, select_provider}
use acds.Integration.Client.Requests.{
  Served, succeeded, build_fallback_chain, approach, fall_back, after_attempt, fallback_loop,
  execute_with_fallback, response_of, validate_request, request,
}
use acds.Integration.Client.Traffic.{Permits, Within, calls, execute_single-Within}

-- The calls of one provider.
unfoldable pub calls_to : String → List Activity → ℕ
calls_to p [] = 0
calls_to p (called provider_id ∷ rest) =
    let later = calls_to p rest in if str_eq p provider_id then suc later else later
calls_to p (slept ms ∷ rest) = calls_to p rest

calls_to-append :
    (p : String) (xs ys : List Activity) → calls_to p (xs ++ ys) ≡ calls_to p xs + calls_to p ys
unfolding calls_to
calls_to-append p [] ys = omega arith
calls_to-append p (called q ∷ xs) ys = ground (arith, calls_to-append p xs ys)
calls_to-append p (slept ms ∷ xs) ys = calls_to-append p xs ys

calls_to-le : (p : String) (xs : List Activity) → calls_to p xs ≤ calls xs
unfolding calls_to calls
calls_to-le p [] = omega arith
calls_to-le p (called q ∷ xs) = ground (arith, calls_to-le p xs)
calls_to-le p (slept ms ∷ xs) = calls_to-le p xs

calls_to-other :
    (p id : String) (xs : List Activity)
    → str_eq p id ≡ false
    → All (Permits (λ q. q ≡ id)) xs
    → calls_to p xs ≡ 0
unfolding calls_to
calls_to-other p id [] n a = refl
calls_to-other p id (called q ∷ xs) n a =
    let other : str_eq p q ≡ false = rw a.0 n in rw other (calls_to-other p id xs n a.1)
calls_to-other p id (slept ms ∷ xs) n a = calls_to-other p id xs n a.1

keep-head :
    (f : String → Bool) (x : String) (rest xs : List String) → keep f xs ≡ x ∷ rest → f x ≡ true
unfolding keep
keep-head f x rest [] e = absurd (cc)
keep-head f x rest (a ∷ xs) e = elim (Bool-cases (f a)) [
  | inl y ↦ let same : a ≡ x = cc (rw y at e) in subst (λ z. f z ≡ true) same y
  | inr n ↦ keep-head f x rest xs (rw n at e)
]

contains-snoc :
    (p id : String) (tried : List String)
    → contains p (tried ++ id ∷ []) ≡ (contains p tried || str_eq p id)
unfolding contains
contains-snoc p id [] = ground arith
contains-snoc p id (t ∷ tried) = ground (arith, contains-snoc p id tried)

module _ {W : Type 0} where
  -- Between two states, no provider that was tried is called again, and every other one at most so
  -- many times.
  pub record Spares (tried : List String) (most : ℕ) (s s' : ClientState W) : Type 0 where
    pub again :
        (p : String) → contains p tried ≡ true → calls_to p s'.activity ≡ calls_to p s.activity
    pub at_most : (p : String) → calls_to p s'.activity ≤ calls_to p s.activity + most

  pub Spares-same :
      (tried : List String) (most : ℕ) (s s' : ClientState W)
      → s'.activity ≡ s.activity
      → Spares tried most s s'
  Spares-same tried most s s' e = record {
    again = λ p m. ap (calls_to p) e;
    at_most = λ p. let same = ap (calls_to p) e in omega (arith, same);
  }

  -- The attempts on a provider that was not tried, and then the rest.
  Spares-then :
      (id : String) (tried : List String) (most : ℕ) (s s' s'' : ClientState W)
      → contains id tried ≡ false
      → Within (λ q. q ≡ id) most s s'
      → Spares (tried ++ id ∷ []) most s' s''
      → Spares tried most s s''
  Spares-then id tried most s s' s'' new w r = record {
    again = λ p m. elim (Bool-cases (str_eq p id)) [
      | inl y ↦ let same = (eq_iff p id).0 y in absurd (cc (m, new, same))
      | inr n ↦
          let listed : contains p (tried ++ id ∷ []) ≡ true =
            ground (arith, contains-snoc p id tried, m) in
          r.again p listed ∙ untouched p n
    ];
    at_most = λ p. elim (Bool-cases (str_eq p id)) [
      | inl y ↦
          let listed : contains p (tried ++ id ∷ []) ≡ true =
            ground (arith, contains-snoc p id tried, y) in
          let same = r.again p listed in
          omega (arith, same, counted p, calls_to-le p w.latest, w.bounded)
      | inr n ↦ let same = untouched p n in omega (arith, same, r.at_most p)
    ];
  }
    where
      counted : (p : String) → calls_to p s'.activity ≡ calls_to p w.latest + calls_to p s.activity
      counted p = ap (calls_to p) w.grown ∙ calls_to-append p w.latest s.activity

      untouched :
          (p : String) → str_eq p id ≡ false → calls_to p s'.activity ≡ calls_to p s.activity
      untouched p n =
          let none_of = calls_to-other p id w.latest n w.permitted in
          let c = counted p in omega (arith, c, none_of)

module _ {W : Type 0} (providers : List (String × Provider W)) (strategy : RetryStrategy)
    (req : CapabilityRequest) where
  -- The first try and the retries.
  abbrev pub tries : ℕ
  tries = strategy.max_retries + 1

  module _ (again : String → Provider W → Bool → List String → Exec (ClientState W) Fault Served)
      (ih : (id : String) (client : Provider W) (used : Bool) (tried : List String)
          (s : ClientState W)
        → contains id tried ≡ false
        → Spares tried tries s (again id client used tried s).1) where
    approach-Spares :
        (tried : List String) (next : String) (found : Option (Provider W)) (s : ClientState W)
        → contains next tried ≡ false
        → Spares tried tries s (approach providers strategy req again tried next found s).1
    unfolding approach
    approach-Spares tried next none s new = Spares-same tried tries s s refl
    approach-Spares tried next (some client) s new = elim (Bool-cases (evaluate req next).allowed) [
      | inl y ↦ rw y (ih next client true tried s new)
      | inr e ↦ rw e (Spares-same tried tries s s refl)
    ]

    fall_back-Spares :
        (tried chain : List String) (s : ClientState W)
        → build_fallback_chain req.capability tried ≡ chain
        → Spares tried tries s (fall_back providers strategy req again tried chain s).1
    unfolding fall_back build_fallback_chain
    fall_back-Spares tried [] s e = Spares-same tried tries s s refl
    fall_back-Spares tried (next ∷ rest) s e =
        let fresh =
          keep-head (λ p. not (contains p tried)) next rest (get_capable_providers req.capability)
            e in
        approach-Spares tried next (lookup next providers) s (ground (arith, fresh))

    after_attempt-Spares :
        (tried : List String) (id : String) (used : Bool) (latency : ℕ)
        (found : Option InferenceResult) (s : ClientState W)
        → Spares tried tries s
            (after_attempt providers strategy req again tried id used latency found s).1
    unfolding after_attempt
    after_attempt-Spares tried id used latency none s =
        fall_back-Spares tried (build_fallback_chain req.capability tried) s refl
    after_attempt-Spares tried id used latency (some result) s = Spares-same tried tries s _ refl

  fallback_loop-Spares :
      (fuel : ℕ) (id : String) (client : Provider W) (used : Bool) (tried : List String)
      (s : ClientState W)
      → contains id tried ≡ false
      → Spares tried tries s (fallback_loop providers strategy req fuel id client used tried s).1
  unfolding fallback_loop
  fallback_loop-Spares zero id client used tried s new = Spares-same tried tries s s refl
  fallback_loop-Spares (suc fuel) id client used tried s new =
      let ((o, latency), s') = execute_single req id client strategy s in
      let again = fallback_loop providers strategy req fuel in
      Spares-then id tried tries s s' _ new (execute_single-Within req id client strategy s) (
        after_attempt-Spares again (fallback_loop-Spares fuel) (tried ++ id ∷ []) id used latency
          (succeeded o) s')

  serve-Spares :
      (id : String) (client : Provider W) (s : ClientState W)
      → Spares [] tries s
          ((execute_with_fallback providers strategy req id client >>= λ served.
              lift (ok (response_of providers strategy req id served)))
            s).1
  unfolding execute_with_fallback contains
  serve-Spares id client s =
      concluded (fallback_loop providers strategy req most id client false [] s)
        (fallback_loop-Spares most id client false [] s refl)
    where
      most : ℕ
      most = length (get_capable_providers req.capability)

      concluded :
          (r : Result Fault Served × ClientState W)
          → Spares [] tries s r.1
          → Spares [] tries s
              (((λ _. r) >>= λ served. lift (ok (response_of providers strategy req id served)))
                s).1
      concluded (ok served, s') c = c
      concluded (err fault, s') c = c

  choose-Spares :
      (s : ClientState W) (choice : Result Fault (String × Provider W))
      → Spares [] tries s
          ((lift choice >>= λ c. execute_with_fallback providers strategy req c.0 c.1 >>= λ served.
              lift (ok (response_of providers strategy req c.0 served)))
            s).1
  choose-Spares s (ok (id, client)) = serve-Spares id client s
  choose-Spares s (err fault) = Spares-same [] tries s s refl

  -- However a request ends, it has called each provider at most once and once for each retry.
  pub request-Spares : (s : ClientState W) → Spares [] tries s (request providers strategy req s).1
  unfolding request
  request-Spares s = elim (Result-cases (validate_request req)) [
    | inl (u, e) ↦ rw e (choose-Spares s (select_provider providers req s.latency_history))
    | inr (fault, e) ↦ rw e (Spares-same [] tries s s refl)
  ]
