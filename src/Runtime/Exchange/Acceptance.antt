-- ===== src/Runtime/Exchange/Acceptance.antt =====
-- runtime/exchange/ingress.py: exactly which files are accepted.
use acds.Prelude.{
  String, Text, ◌≡◌, ◌≢◌, ◌↔◌, ◌⊎◌, refl, inl, inr, Bool, true, false, not, ◌&&◌, none, some, List,
  [], ◌∷◌, arith, ok, All, Any, all, all_iff, eq_iff, is_empty, str_eq, contains, Bool-cases,
  Option-cases,
}
use acds.Runtime.Exchange.{
  Content, unreadable, scalar, container, forbidden_from_m2, forbidden_markers, Judgement, take_in,
  turn_away, has_markers, marked_as, infer_type, judge_type, judge_unmarked, judge_file,
}

-- The file is no number, Boolean or null.
abbrev pub IsReadable : {J : Type 0} → Content J → Type 0
IsReadable unreadable = Unit {0}
IsReadable (scalar artifact) = ⊥
IsReadable (container artifact) = Unit {0}

module _ {J : Type 0} (has : J → String → Bool) (schema_errors : J → List String)
    (stem_lower : String → Text) (type_order : List String) where
  -- No forbidden type has all its markers in the artifact, its type is not a forbidden one, and a
  -- behaviour proposal has no schema errors.
  pub record IsAcceptable (file_name : String) (artifact : J) : Type 0 where
    pub unmarked :
        ¬ Any
          (λ (row : String × List String). All (λ m. has artifact m ≡ true) row.1)
          forbidden_markers
    pub not_forbidden :
        contains
          (infer_type has schema_errors stem_lower type_order file_name artifact)
          forbidden_from_m2
        ≡ false
    pub schema :
        (infer_type has schema_errors stem_lower type_order file_name artifact
          ≢ "behavior_proposal")
        ⊎ (schema_errors artifact ≡ [])

  abbrev pub Acceptable : String → Content J → Type 0
  Acceptable file_name unreadable = ⊥
  Acceptable file_name (scalar artifact) = ⊥
  Acceptable file_name (container artifact) = IsAcceptable file_name artifact

  abbrev pub Judged : String → Content J → Judgement → Type 0
  Judged file_name content (take_in artifact_type) = Acceptable file_name content
  Judged file_name content (turn_away reason) = ¬ Acceptable file_name content

  abbrev Marked : J → List (String × List String) → Type 0
  Marked artifact = Any (λ (row : String × List String). All (λ m. has artifact m ≡ true) row.1)

  marked_iff :
      (artifact : J) (row : String × List String)
      → (all (has artifact) row.1 ≡ true) ↔ All (λ m. has artifact m ≡ true) row.1
  marked_iff artifact row =
      all_iff (has artifact) (λ m. has artifact m ≡ true) (λ m. (λ h. h, λ h. h)) row.1

  marked_as-some :
      (artifact : J) (rows : List (String × List String)) (forbidden : String)
      → marked_as has schema_errors stem_lower type_order artifact rows ≡ some forbidden
      → Marked artifact rows
  unfolding marked_as
  marked_as-some artifact [] forbidden e = absurd (cc)
  marked_as-some artifact (row ∷ rows) forbidden e = elim (Bool-cases (all (has artifact) row.1)) [
    | inl y ↦ inl ((marked_iff artifact row).0 y)
    | inr n ↦ inr (marked_as-some artifact rows forbidden (rw n at e))
  ]

  marked_as-none :
      (artifact : J) (rows : List (String × List String))
      → marked_as has schema_errors stem_lower type_order artifact rows ≡ none
      → ¬ Marked artifact rows
  unfolding marked_as
  marked_as-none artifact [] e m = absurd m
  marked_as-none artifact (row ∷ rows) e (inl m) =
      let y = (marked_iff artifact row).1 m in absurd (cc (rw y at e))
  marked_as-none artifact (row ∷ rows) e (inr m) = elim (Bool-cases (all (has artifact) row.1)) [
    | inl y ↦ absurd (cc (rw y at e))
    | inr n ↦ marked_as-none artifact rows (rw n at e) m
  ]

  not_valid :
      (t : String) (errors : List String)
      → (str_eq t "behavior_proposal" && not (is_empty errors)) ≡ true
      → ¬ ((t ≢ "behavior_proposal") ⊎ (errors ≡ []))
  not_valid t [] y h = ground arith
  not_valid t (x ∷ errors) y (inl ne) = ne ((eq_iff t "behavior_proposal").0 (ground arith))
  not_valid t (x ∷ errors) y (inr e) = cc

  is_valid :
      (t : String) (errors : List String)
      → (str_eq t "behavior_proposal" && not (is_empty errors)) ≡ false
      → (t ≢ "behavior_proposal") ⊎ (errors ≡ [])
  is_valid t [] v = inr refl
  is_valid t (x ∷ errors) v = inl (λ e. let y = (eq_iff t "behavior_proposal").1 e in ground arith)

  judge_type-Judged :
      (file_name : String) (artifact : J)
      → marked_as has schema_errors stem_lower type_order artifact forbidden_markers ≡ none
      → Judged file_name (container artifact) (
          judge_type has schema_errors stem_lower type_order artifact
            (infer_type has schema_errors stem_lower type_order file_name artifact))
  unfolding judge_type
  judge_type-Judged file_name artifact e =
      let t = infer_type has schema_errors stem_lower type_order file_name artifact in
      elim (Bool-cases (contains t forbidden_from_m2)) [
        | inl f ↦ rw f (λ h. cc (h.not_forbidden, f))
        | inr n ↦
            elim (Bool-cases
              (str_eq t "behavior_proposal" && not (is_empty (schema_errors artifact)))) [
                | inl y ↦ rw (n, y) (λ h. not_valid t (schema_errors artifact) y h.schema)
                | inr v ↦
                    rw (n, v)
                      (record {
                        unmarked = marked_as-none artifact forbidden_markers e;
                        not_forbidden = n;
                        schema = is_valid t (schema_errors artifact) v;
                      })
              ]
      ]

  pub judge_file-Judged :
      (file_name : String) (content : Content J)
      → IsReadable content
      → (v : Judgement) × (judge_file has schema_errors stem_lower type_order file_name content
          ≡ ok v)
        × Judged file_name content v
  unfolding judge_file judge_unmarked
  judge_file-Judged file_name unreadable r = (_, refl, λ h. h)
  judge_file-Judged file_name (scalar artifact) r = absurd r
  judge_file-Judged file_name (container artifact) r =
      elim (Option-cases
        (marked_as has schema_errors stem_lower type_order artifact forbidden_markers)) [
          | inl e ↦ (
            judge_type has schema_errors stem_lower type_order artifact
                (infer_type has schema_errors stem_lower type_order file_name artifact),
            rw e,
            judge_type-Judged file_name artifact e,
          )
          | inr (f, e) ↦ (
            turn_away (has_markers f),
            rw e,
            λ h. h.unmarked (marked_as-some artifact forbidden_markers f e),
          )
        ]
