-- ===== src/Integration/Client/Ranking.antt =====
-- swarm/integration/acds_client.py: the provider that is chosen is the best of those that may serve.
use acds.Prelude.{
  ℕ, ◌≤◌, ◌<◌, ◌≢◌, String, ◌≡◌, refl, ap, subst, inl, inr, true, Option, none, some, List, [], ◌∷◌,
  arith, Result, ok, err, Any, All, All-mono, eq_refl, eq_iff, str_eq, contains, lookup, Bool-cases,
}
use acds.Integration.Contracts.{CapabilityRequest}
use acds.Integration.Policy.{Verdict, evaluate}
use acds.Integration.Policy.Eligibility.{IsEligible, evaluate-allowed_iff}
use acds.Integration.Retry.{Fault, no_providers, all_denied}
use acds.Integration.Client.Attempts.{Provider}
use acds.Integration.Client.Sorting.{Tops, sort_scores-Tops, All-sort_scores, Any-sort_scores}
use acds.Integration.Client.Scoring.{
  score_of, get_capable_providers, sort_scores, consider, score_all, with_client, best,
  select_among, select_provider,
}

module _ {W : Type 0} (providers : List (String × Provider W)) (req : CapabilityRequest)
    (latency_history : List (String × List ℕ)) where
  -- The client holds the provider, and the policy allows it.
  pub record IsAvailable (provider_id : String) : Type 0 where
    pub client : Provider W
    pub held : lookup provider_id providers ≡ some client
    pub eligible : IsEligible req provider_id

  -- A row of `scored`.
  record IsRow (candidates : List String) (row : ℕ × String) : Type 0 where
    listed : contains row.1 candidates ≡ true
    available : IsAvailable row.1
    scored : row.0 ≡ score_of req latency_history row.1

  IsRow-cons :
      (c : String) (cs : List String) (row : ℕ × String) → IsRow cs row → IsRow (c ∷ cs) row
  unfolding contains
  IsRow-cons c cs row h = record {
    listed = let e = h.listed in ground arith;
    available = h.available;
    scored = h.scored;
  }

  contains_self : (c : String) (cs : List String) → contains c (c ∷ cs) ≡ true
  unfolding contains
  contains_self c cs = rw (eq_refl c)

  consider-IsRow :
      (c : String) (cs : List String) (found : Option (Provider W))
      → lookup c providers ≡ found
      → (ballot : List (ℕ × String) × List (String × Verdict)) → All (IsRow (c ∷ cs)) ballot.0
      → All (IsRow (c ∷ cs)) (consider providers req latency_history c found ballot).0
  unfolding consider
  consider-IsRow c cs none e (scored, denials) a = a
  consider-IsRow c cs (some client) e (scored, denials) a =
      elim (Bool-cases (evaluate req c).allowed) [ inr n ↦ rw n a | inl y ↦ rw y (row y, a) ]
    where
      row : (evaluate req c).allowed ≡ true → IsRow (c ∷ cs) (score_of req latency_history c, c)
      row y = record {
        listed = contains_self c cs;
        available = record {
          client = client;
          held = e;
          eligible = (evaluate-allowed_iff req c).0 y;
        };
        scored = refl;
      }

  score_all-IsRow :
      (cs : List String) → All (IsRow cs) (score_all providers req latency_history cs).0
  unfolding score_all
  score_all-IsRow [] = tt
  score_all-IsRow (c ∷ cs) =
      consider-IsRow c cs (lookup c providers) refl (score_all providers req latency_history cs) (
        All-mono (IsRow-cons c cs) (score_all providers req latency_history cs).0
          (score_all-IsRow cs))

  abbrev Row : String → ℕ × String → Type 0
  Row q row = row ≡ (score_of req latency_history q, q)

  consider_keeps :
      (q c : String) (found : Option (Provider W))
      (ballot : List (ℕ × String) × List (String × Verdict))
      → Any (Row q) ballot.0
      → Any (Row q) (consider providers req latency_history c found ballot).0
  unfolding consider
  consider_keeps q c none ballot a = a
  consider_keeps q c (some client) ballot a = elim (Bool-cases (evaluate req c).allowed) [
    | inr n ↦ rw n a
    | inl y ↦ rw y (inr a)
  ]

  consider_own :
      (q : String)
      → IsAvailable q
      → (found : Option (Provider W)) → lookup q providers ≡ found
      → (ballot : List (ℕ × String) × List (String × Verdict))
      → Any (Row q) (consider providers req latency_history q found ballot).0
  unfolding consider
  consider_own q v none e ballot = absurd (cc (v.held))
  consider_own q v (some client) e ballot =
      rw ((evaluate-allowed_iff req q).1 v.eligible) (inl refl)

  -- Every available candidate has its row.
  score_all_complete :
      (q : String)
      → IsAvailable q
      → (cs : List String) → contains q cs ≡ true
      → Any (Row q) (score_all providers req latency_history cs).0
  unfolding score_all contains
  score_all_complete q v [] m = absurd (cc)
  score_all_complete q v (c ∷ cs) m = elim (Bool-cases (str_eq q c)) [
    | inl e ↦
        let same : q ≡ c = (eq_iff q c).0 e in
        subst
          (λ x.
            Any (Row q)
              (consider providers req latency_history x (lookup x providers)
                (score_all providers req latency_history cs)).0)
          same
          (consider_own q v (lookup q providers) refl (score_all providers req latency_history cs))
    | inr n ↦
        consider_keeps q c (lookup c providers) (score_all providers req latency_history cs)
          (score_all_complete q v cs (rw n at m))
  ]

  -- The choice is held, listed and eligible, and no provider that may serve scores higher.
  pub record IsBest (candidates : List String) (choice : String × Provider W) : Type 0 where
    pub listed : contains choice.0 candidates ≡ true
    pub held : lookup choice.0 providers ≡ some choice.1
    pub eligible : IsEligible req choice.0
    pub unbeaten : ¬ (
        (q : String) × (contains q candidates ≡ true)
        × IsAvailable q
        × (score_of req latency_history choice.0 < score_of req latency_history q))

  -- What each way to end says.
  abbrev pub Selects : List String → Result Fault (String × Provider W) → Type 0
  Selects candidates (ok choice) = IsBest candidates choice
  Selects candidates (err (no_providers capability)) =
      (candidates ≡ []) × (capability ≡ req.capability)
  Selects candidates (err (all_denied denials)) =
      (candidates ≢ []) × ¬ ((q : String) × (contains q candidates ≡ true) × IsAvailable q)
  Selects candidates (err fault) = ⊥

  no_row : (P : ℕ × String → Type 0) (rows : List (ℕ × String)) → rows ≡ [] → Any P rows → ⊥
  no_row P rows e a = let x : Any P [] = rw e at a in x

  le_of_tops :
      (q : String) (n : ℕ) (rows : List (ℕ × String))
      → All (λ y. y.0 ≤ n) rows
      → Any (Row q) rows
      → score_of req latency_history q ≤ n
  le_of_tops q n (r ∷ rows) a (inl e) =
      let f = ap (λ (x : ℕ × String). x.0) e in omega (arith, a.0, f)
  le_of_tops q n (r ∷ rows) a (inr b) = le_of_tops q n rows a.1 b
  le_of_tops q n [] a b = absurd b

  best-Selects :
      (cs : List String)
      → cs ≢ []
      → (rows : List (ℕ × String)) (denials : List (String × Verdict)) → Tops rows
      → All (IsRow cs) rows
      → ((q : String) → contains q cs ≡ true → IsAvailable q → Any (Row q) rows)
      → Selects cs (best providers req latency_history rows denials)
  unfolding best with_client
  best-Selects cs ne [] denials t a k = (ne, λ (q, m, v). absurd (k q m v))
  best-Selects cs ne ((n, b) ∷ rows) denials t a k = rw (a.0.available.held) (record {
    listed = a.0.listed;
    held = a.0.available.held;
    eligible = a.0.available.eligible;
    unbeaten = λ (q, m, v, more).
        omega (arith, more, a.0.scored, le_of_tops q n ((n, b) ∷ rows) (omega arith, t) (k q m v));
  })

  -- The provider that is selected is held, listed for the capability and eligible, and none that is
  -- so has a higher score; no selection is made only if the registry lists no provider for the
  -- capability, or none of those it lists is held and eligible.
  pub select_provider-Selects :
      Selects (get_capable_providers req.capability) (select_provider providers req latency_history)
  unfolding select_provider
  select_provider-Selects = among (get_capable_providers req.capability)
    where
      among : (cs : List String) → Selects cs (select_among providers req latency_history cs)
      among [] = (refl, refl)
      among (c ∷ cs) =
          let (rows, denials) = score_all providers req latency_history (c ∷ cs) in
          best-Selects (c ∷ cs) (λ e. cc) (sort_scores rows) denials (sort_scores-Tops rows)
            (All-sort_scores (IsRow (c ∷ cs)) rows (score_all-IsRow (c ∷ cs)))
            (λ q m v. Any-sort_scores (Row q) rows (score_all_complete q v (c ∷ cs) m))
