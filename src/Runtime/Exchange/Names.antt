-- ===== src/Runtime/Exchange/Names.antt =====
-- A directory: names that stand once, sorting them, and what insertion and removal keep.
use acds.Prelude.{
  String, ◌≡◌, refl, inl, inr, Bool, true, false, ◌||◌, none, some, List, [], ◌∷◌, arith, eq_iff,
  eq_refl, if◌then◌else◌, str_eq, contains, keep, lookup, insert, All, sym, ◌∙◌, Bool-cases,
}
use acds.Runtime.Exchange.Files.{
  Directory, is_json, not_after, insert_name, sort_names, names, sorted_names, remove,
}

module _ {F : Type 0} where
  pub lookup-remove :
      (name asked : String) (directory : Directory F)
      → lookup asked (remove name directory)
        ≡ (if str_eq asked name then none else lookup asked directory)
  unfolding lookup remove
  lookup-remove name asked [] = ground arith
  lookup-remove name asked ((other, file) ∷ rest) = ground (
    arith,
    eq_iff name other,
    eq_iff asked other,
    eq_iff asked name,
    lookup-remove name asked rest,
  )

-- No name stands twice.
abbrev pub Distinct : List String → Type 0
Distinct [] = Unit {0}
Distinct (a ∷ rest) = (contains a rest ≡ false) × Distinct rest

contains-insert_name :
    (x a : String) (rest : List String)
    → contains x (insert_name a rest) ≡ (str_eq x a || contains x rest)
unfolding contains insert_name
contains-insert_name x a [] = refl
contains-insert_name x a (b ∷ rest) = ground (arith, contains-insert_name x a rest)

contains-sort_names :
    (x : String) (rest : List String) → contains x (sort_names rest) ≡ contains x rest
unfolding contains sort_names
contains-sort_names x [] = refl
contains-sort_names x (a ∷ rest) =
    rw (contains-insert_name x a (sort_names rest), contains-sort_names x rest)

insert_name-Distinct :
    (a : String) (rest : List String)
    → contains a rest ≡ false
    → Distinct rest
    → Distinct (insert_name a rest)
unfolding contains insert_name
insert_name-Distinct a [] n d = (refl, tt)
insert_name-Distinct a (b ∷ rest) n d = elim (Bool-cases (not_after a b)) [
  | inl y ↦ rw y (n, d)
  | inr x ↦ rw x (
    ground (arith, contains-insert_name b a rest, eq_iff a b, eq_iff b a),
    insert_name-Distinct a rest (ground arith) d.1,
  )
]

sort_names-Distinct : (rest : List String) → Distinct rest → Distinct (sort_names rest)
unfolding sort_names
sort_names-Distinct [] d = tt
sort_names-Distinct (a ∷ rest) d =
    insert_name-Distinct a (sort_names rest) (rw (contains-sort_names a rest) d.0)
      (sort_names-Distinct rest d.1)

contains-keep :
    (f : String → Bool) (x : String) (rest : List String)
    → contains x rest ≡ false
    → contains x (keep f rest) ≡ false
unfolding contains keep
contains-keep f x [] n = refl
contains-keep f x (a ∷ rest) n = ground (arith, contains-keep f x rest)

keep-Distinct : (f : String → Bool) (rest : List String) → Distinct rest → Distinct (keep f rest)
unfolding keep
keep-Distinct f [] d = tt
keep-Distinct f (a ∷ rest) d = elim (Bool-cases (f a)) [
  | inl y ↦ rw y (contains-keep f a rest d.0, keep-Distinct f rest d.1)
  | inr n ↦ rw n (keep-Distinct f rest d.1)
]

pub sorted_names-Distinct :
    {F : Type 0} (directory : Directory F)
    → Distinct (names directory)
    → Distinct (sorted_names directory)
unfolding sorted_names
sorted_names-Distinct directory d =
    sort_names-Distinct (keep is_json (names directory)) (keep-Distinct is_json (names directory) d)

or_true : (b : Bool) → (b || true) ≡ true
or_true true = refl
or_true false = refl

-- A property of all names that a list contains holds of all its items.
All-contains :
    (P : String → Type 0) (list : List String)
    → ((x : String) → contains x list ≡ true → P x)
    → All P list
unfolding contains
All-contains P [] h = tt
All-contains P (a ∷ list) h =
    (h a (rw (eq_refl a)), All-contains P list (λ x m. h x (rw m (or_true (str_eq x a)))))

keep-contains :
    (f : String → Bool) (x : String) (list : List String)
    → contains x (keep f list) ≡ true
    → contains x list ≡ true
unfolding contains keep
keep-contains f x [] m = m
keep-contains f x (a ∷ list) m = ground (arith, keep-contains f x list)

module _ {F : Type 0} where
  names_found :
      (P : F → Type 0) (x : String) (directory : Directory F)
      → All (λ (row : String × F). P row.1) directory
      → contains x (names directory) ≡ true
      → (file : F) × (lookup x directory ≡ some file) × P file
  unfolding contains names lookup
  names_found P x [] a m = absurd (cc)
  names_found P x ((other, file) ∷ rest) a m = elim (Bool-cases (str_eq x other)) [
    | inl y ↦ (file, rw y, a.0)
    | inr n ↦ let (f, e, p) = names_found P x rest a.1 (rw n at m) in (f, rw n e, p)
  ]

  -- What holds of every file holds of each that the sorted names give.
  pub All-sorted_names :
      (P : F → Type 0) (directory : Directory F)
      → All (λ (row : String × F). P row.1) directory
      → All
          (λ name. (file : F) × (lookup name directory ≡ some file) × P file)
          (sorted_names directory)
  unfolding sorted_names
  All-sorted_names P directory a =
      All-contains (λ name. (file : F) × (lookup name directory ≡ some file) × P file)
        (sort_names (keep is_json (names directory)))
        (λ x m. names_found P x directory a (
          keep-contains is_json x (names directory)
            (sym (contains-sort_names x (keep is_json (names directory))) ∙ m)))

  names-insert :
      (x key : String) (file : F) (directory : Directory F)
      → contains x (names (insert key file directory))
        ≡ (str_eq x key || contains x (names directory))
  unfolding contains names insert
  names-insert x key file [] = refl
  names-insert x key file ((other, old) ∷ rest) =
      ground (arith, names-insert x key file rest, eq_iff key other, eq_iff x key, eq_iff x other)

  pub insert-Distinct :
      (key : String) (file : F) (directory : Directory F)
      → Distinct (names directory)
      → Distinct (names (insert key file directory))
  unfolding names insert contains
  insert-Distinct key file [] d = (refl, tt)
  insert-Distinct key file ((other, old) ∷ rest) d = elim (Bool-cases (str_eq key other)) [
    | inl y ↦ rw y d
    | inr n ↦ rw n (
      ground (arith, names-insert other key file rest, eq_iff other key, eq_iff key other),
      insert-Distinct key file rest d.1,
    )
  ]

  pub All-insert :
      (P : F → Type 0) (key : String) (file : F) (directory : Directory F)
      → P file
      → All (λ (row : String × F). P row.1) directory
      → All (λ (row : String × F). P row.1) (insert key file directory)
  unfolding insert
  All-insert P key file [] p a = (p, tt)
  All-insert P key file ((other, old) ∷ rest) p a = elim (Bool-cases (str_eq key other)) [
    | inl y ↦ rw y (p, a.1)
    | inr n ↦ rw n (a.0, All-insert P key file rest p a.1)
  ]
