-- ===== src/Integration/Client/Chain.antt =====
-- swarm/integration/acds_client.py: the fallback chain grows shorter with every provider tried.
use acds.Prelude.{
  ◌≤◌, ◌<◌, String, ◌≡◌, subst, inl, inr, Bool, true, false, not, ◌||◌, List, [], ◌∷◌, ◌++◌, arith,
  eq_iff, str_eq, contains, length, keep, Bool-cases,
}

contains-append :
    (p next : String) (tried : List String)
    → contains p (tried ++ next ∷ []) ≡ (contains p tried || str_eq p next)
unfolding contains
contains-append p next [] = ground arith
contains-append p next (t ∷ tried) = ground (arith, contains-append p next tried)

keep-le :
    (tried : List String) (next : String) (all : List String)
    → length (keep (λ p. not (contains p (tried ++ next ∷ []))) all)
      ≤ length (keep (λ p. not (contains p tried)) all)
unfolding keep
keep-le tried next [] = omega arith
keep-le tried next (p ∷ all) = ground (arith, contains-append p next tried, keep-le tried next all)

-- Excluding the first provider of a chain makes the chain shorter.
pub keep-lt :
    (tried : List String) (next : String) (rest all : List String)
    → keep (λ p. not (contains p tried)) all ≡ next ∷ rest
    → length (keep (λ p. not (contains p (tried ++ next ∷ []))) all)
      < length (keep (λ p. not (contains p tried)) all)
unfolding keep
keep-lt tried next rest [] e = absurd (cc)
keep-lt tried next rest (p ∷ all) e = elim (Bool-cases (contains p tried)) [
  | inl y ↦
      let ih = keep-lt tried next rest all (rw y at e) in
      ground (arith, contains-append p next tried, ih)
  | inr n ↦
      let same : p ≡ next = cc (rw n at e) in
      ground (arith, contains-append p next tried, (eq_iff p next).1 same, keep-le tried next all)
]

length-keep_le : (f : String → Bool) (all : List String) → length (keep f all) ≤ length all
unfolding keep
length-keep_le f [] = omega arith
length-keep_le f (p ∷ all) = ground (arith, length-keep_le f all)

pub length-keep_lt :
    (x : String) (f : String → Bool)
    → f x ≡ false
    → (all : List String) → contains x all ≡ true
    → length (keep f all) < length all
unfolding keep contains
length-keep_lt x f off [] m = absurd (cc)
length-keep_lt x f off (p ∷ all) m = elim (Bool-cases (str_eq x p)) [
  | inl y ↦
      let out : f p ≡ false = subst (λ z. f z ≡ false) ((eq_iff x p).0 y) off in
      ground (arith, length-keep_le f all)
  | inr n ↦ let ih = length-keep_lt x f off all (rw n at m) in ground arith
]
