-- ===== src/Integration/Client/Sorting.antt =====
-- swarm/integration/acds_client.py: sorting by score keeps the rows and puts the highest first.
use acds.Prelude.{
  ℕ, ◌≤◌, String, ◌⊎◌, inl, inr, List, [], ◌∷◌, arith, Any, All, All-mono, leb, Bool-cases,
}
use acds.Integration.Client.Scoring.{insert_score, sort_scores}

-- The first row has the highest score.
abbrev pub Tops : List (ℕ × String) → Type 0
Tops [] = Unit {0}
Tops (x ∷ xs) = All (λ y. y.0 ≤ x.0) xs

All-insert_score :
    (P : ℕ × String → Type 0) (x : ℕ × String) (xs : List (ℕ × String))
    → P x
    → All P xs
    → All P (insert_score x xs)
unfolding insert_score
All-insert_score P x [] p a = (p, tt)
All-insert_score P x (y ∷ ys) p a = elim (Bool-cases (leb y.0 x.0)) [
  | inl e ↦ rw e (p, a)
  | inr n ↦ rw n (a.0, All-insert_score P x ys p a.1)
]

Any-insert_score :
    (P : ℕ × String → Type 0) (x : ℕ × String) (xs : List (ℕ × String))
    → P x ⊎ Any P xs
    → Any P (insert_score x xs)
unfolding insert_score
Any-insert_score P x [] h = h
Any-insert_score P x (y ∷ ys) h = elim (Bool-cases (leb y.0 x.0)) [
  | inl e ↦ rw e h
  | inr n ↦ rw n (later h (Any-insert_score P x ys))
]
  where
    later :
        P x ⊎ (P y ⊎ Any P ys)
        → (P x ⊎ Any P ys → Any P (insert_score x ys))
        → P y ⊎ Any P (insert_score x ys)
    later (inl p) ih = inr (ih (inl p))
    later (inr (inl q)) ih = inl q
    later (inr (inr a)) ih = inr (ih (inr a))

insert_score-Tops : (x : ℕ × String) (xs : List (ℕ × String)) → Tops xs → Tops (insert_score x xs)
unfolding insert_score
insert_score-Tops x [] t = tt
insert_score-Tops x (y ∷ ys) t = elim (Bool-cases (leb y.0 x.0)) [
  | inl e ↦ let le : y.0 ≤ x.0 = ground arith in rw e (le, All-mono (λ z h. omega arith) ys t)
  | inr n ↦ let le : x.0 ≤ y.0 = ground arith in rw n (All-insert_score (λ z. z.0 ≤ y.0) x ys le t)
]

pub sort_scores-Tops : (xs : List (ℕ × String)) → Tops (sort_scores xs)
unfolding sort_scores
sort_scores-Tops [] = tt
sort_scores-Tops (x ∷ xs) = insert_score-Tops x (sort_scores xs) (sort_scores-Tops xs)

pub All-sort_scores :
    (P : ℕ × String → Type 0) (xs : List (ℕ × String)) → All P xs → All P (sort_scores xs)
unfolding sort_scores
All-sort_scores P [] a = tt
All-sort_scores P (x ∷ xs) a = All-insert_score P x (sort_scores xs) a.0 (All-sort_scores P xs a.1)

pub Any-sort_scores :
    (P : ℕ × String → Type 0) (xs : List (ℕ × String)) → Any P xs → Any P (sort_scores xs)
unfolding sort_scores
Any-sort_scores P [] a = a
Any-sort_scores P (x ∷ xs) (inl p) = Any-insert_score P x (sort_scores xs) (inl p)
Any-sort_scores P (x ∷ xs) (inr a) =
    Any-insert_score P x (sort_scores xs) (inr (Any-sort_scores P xs a))
