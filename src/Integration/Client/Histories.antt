-- ===== src/Integration/Client/Histories.antt =====
-- swarm/integration/acds_client.py: the latencies that the client remembers of each provider.
use acds.Prelude.{
  ℕ, ◌≤◌, String, ◌≡◌, refl, sym, ap, subst, ◌∙◌, ◌⊎◌, inl, inr, true, Option, none, some, List, [],
  ◌∷◌, ◌++◌, arith, ok, err, Bool-cases, if◌then◌else◌, ltb, length, length-append, lookup, str_eq,
  lookup-insert, eq_iff,
}
use acds.Integration.Contracts.{CapabilityRequest, CapabilityResponse}
use acds.Integration.Retry.{Fault, RetryStrategy}
use acds.Integration.Client.Recording.{Remembers, request-Remembers, recorded}
use acds.Integration.Client.Attempts.{Provider, ClientState, last_20, with_latency}
use acds.Integration.Client.Requests.{request}

-- To forget before an item is added forgets nothing that stays.
last_20-last_20 : (xs : List ℕ) (y : ℕ) → last_20 (last_20 xs ++ y ∷ []) ≡ last_20 (xs ++ y ∷ [])
unfolding last_20
last_20-last_20 [] y = refl
last_20-last_20 (x ∷ xs) y = elim (Bool-cases (ltb 20 (length (x ∷ xs)))) [
  | inl long ↦
      let longer : ltb 20 (length (x ∷ (xs ++ y ∷ []))) ≡ true =
        ground (arith, length-append xs (y ∷ [])) in
      rw (long, longer) (last_20-last_20 xs y)
  | inr short ↦ rw short refl
]

-- The second list is the latest 20 of the first, or all of it when it has no more.
pub record IsLatest (xs ys : List ℕ) : Type 0 where
  pub older : List ℕ
  pub split : xs ≡ older ++ ys
  pub bounded : length ys ≤ 20
  pub full : (older ≡ []) ⊎ (length ys ≡ 20)

IsLatest-full : {xs ys : List ℕ} → IsLatest xs ys → 20 ≤ length xs → length ys ≡ 20
IsLatest-full {xs} {ys} l h = elim l.full [
  | inl e ↦
      let whole : xs ≡ ys = l.split ∙ ap (λ o. o ++ ys) e in
      let lengths : length xs ≡ length ys = ap length whole in omega (arith, l.bounded)
  | inr e ↦ e
]

last_20-IsLatest : (xs : List ℕ) → IsLatest xs (last_20 xs)
unfolding last_20
last_20-IsLatest [] = record { older = []; split = refl; bounded = omega arith; full = inl refl }
last_20-IsLatest (x ∷ xs) = elim (Bool-cases (ltb 20 (length (x ∷ xs)))) [
  | inl long ↦
      let rest = last_20-IsLatest xs in
      rw long (record {
        older = x ∷ rest.older;
        split = ap (λ l. x ∷ l) rest.split;
        bounded = rest.bounded;
        full = inr (IsLatest-full rest (ground arith));
      })
  | inr short ↦
      rw short (record { older = []; split = refl; bounded = ground arith; full = inl refl })
]

-- The client after the requests that were made of it since it was new, and the latencies of the
-- answers, each with the provider that gave it.
pub data Reach {W : Type 0} (providers : List (String × Provider W))
    : List (String × ℕ) → ClientState W → Type 0 where
  start : {s : ClientState W} → s.latency_history ≡ [] → Reach providers [] s
  answered :
      {log : List (String × ℕ)} {s s' : ClientState W} {response : CapabilityResponse}
      (strategy : RetryStrategy) (req : CapabilityRequest)
      → Reach providers log s
      → request providers strategy req s ≡ (ok response, s')
      → Reach providers (log ++ (response.provider_id, response.latency_ms) ∷ []) s'
  failed :
      {log : List (String × ℕ)} {s s' : ClientState W} {fault : Fault} (strategy : RetryStrategy)
      (req : CapabilityRequest)
      → Reach providers log s
      → request providers strategy req s ≡ (err fault, s')
      → Reach providers log s'

-- What one provider took for its answers, the earliest first.
unfoldable pub latencies : String → List (String × ℕ) → List ℕ
latencies provider_id [] = []
latencies provider_id ((other, latency_ms) ∷ log) =
    let rest = latencies provider_id log in
    if str_eq provider_id other then latency_ms ∷ rest else rest

-- `_latency_history.get(provider_id, [])`
abbrev or_empty : Option (List ℕ) → List ℕ
or_empty none = []
or_empty (some history) = history

abbrev pub remembered : String → List (String × List ℕ) → List ℕ
remembered provider_id h = or_empty (lookup provider_id h)

with_latency_lem : (o : Option (List ℕ)) (x : ℕ) → with_latency o x ≡ last_20 (or_empty o ++ x ∷ [])
unfolding with_latency last_20
with_latency_lem none x = refl
with_latency_lem (some history) x = refl

latencies-append :
    (p q : String) (x : ℕ) (log : List (String × ℕ))
    → latencies p (log ++ (q, x) ∷ [])
      ≡ (if str_eq p q then latencies p log ++ x ∷ [] else latencies p log)
unfolding latencies
latencies-append p q x [] = refl
latencies-append p q x ((other, y) ∷ log) = ground (arith, latencies-append p q x log)

remembered-recorded :
    (p q : String) (x : ℕ) (h : List (String × List ℕ)) (log : List (String × ℕ))
    → ((p : String) → remembered p h ≡ last_20 (latencies p log))
    → remembered p (recorded q x h) ≡ last_20 (latencies p (log ++ (q, x) ∷ []))
remembered-recorded p q x h log ih = elim (Bool-cases (str_eq p q)) [
  | inl y ↦
      let same : p ≡ q = (eq_iff p q).0 y in
      rw (lookup-insert q p (with_latency (lookup q h) x) h, latencies-append p q x log, y)
        (with_latency_lem (lookup q h) x
          ∙ ap (λ l. last_20 (l ++ x ∷ [])) (ih q)
          ∙ last_20-last_20 (latencies q log) x
          ∙ ap (λ r. last_20 (latencies r log ++ x ∷ [])) (sym same))
  | inr n ↦
      rw (lookup-insert q p (with_latency (lookup q h) x) h, latencies-append p q x log, n) (ih p)
]

Reach-last_20 :
    {W : Type 0} (providers : List (String × Provider W)) {log : List (String × ℕ)}
    {s : ClientState W}
    → Reach providers log s
    → (p : String) → remembered p s.latency_history ≡ last_20 (latencies p log)
unfolding latencies last_20 lookup
Reach-last_20 providers (start e) p = rw e refl
Reach-last_20 providers (answered {log = log} {s = s} {response = response} strategy req r e) p =
    let grown =
      subst (Remembers providers strategy req s.latency_history) e
        (request-Remembers providers strategy req s) in
    ap (remembered p) grown
    ∙ remembered-recorded p response.provider_id response.latency_ms s.latency_history log
        (Reach-last_20 providers r)
Reach-last_20 providers (failed {s = s} strategy req r e) p =
    let same =
      subst (Remembers providers strategy req s.latency_history) e
        (request-Remembers providers strategy req s) in
    ap (remembered p) same ∙ Reach-last_20 providers r p

-- However the requests since the client was new have ended, what it remembers of a provider is the
-- latest 20 of the latencies of that provider's answers, or all of them when there are no more, in
-- their order; the latency of an answer is the one of the response, and a request that ends with a
-- fault adds none.
pub Reach-IsLatest :
    {W : Type 0} (providers : List (String × Provider W)) {log : List (String × ℕ)}
    {s : ClientState W}
    → Reach providers log s
    → (p : String) → IsLatest (latencies p log) (remembered p s.latency_history)
Reach-IsLatest providers {log} {s} r p =
    subst (IsLatest (latencies p log)) (sym (Reach-last_20 providers r p))
      (last_20-IsLatest (latencies p log))
