-- ===== src/Runtime/Exchange/Moves.antt =====
-- runtime/exchange/ingress.py: what one move settles, and that the next ones leave it.
use acds.Prelude.{
  String, Text, ◌≡◌, ◌⊎◌, refl, ◌∙◌, inl, inr, Bool, true, false, none, some, List, eq_refl, str_eq,
  contains, lookup, lookup-insert,
}
use acds.Runtime.Exchange.Names.{lookup-remove}
use acds.Runtime.Exchange.Acceptance.{Acceptable, Judged}
use acds.Runtime.Exchange.{Content, Judgement, take_in, turn_away, Ingress, move}

module _ {J : Type 0} (has : J → String → Bool) (schema_errors : J → List String)
    (stem_lower : String → Text) (type_order : List String) where
  -- The file left quarantine, for the validated ones if it is acceptable, else for the rejected.
  pub record IsSettled (name : String) (content : Content J) (s s' : Ingress J) : Type 0 where
    pub gone : lookup name s'.quarantine ≡ none
    pub placed :
        (Acceptable has schema_errors stem_lower type_order name content
          × (lookup name s'.validated ≡ some content)
          × (lookup name s'.rejected ≡ lookup name s.rejected))
        ⊎ (¬ Acceptable has schema_errors stem_lower type_order name content
            × (lookup name s'.rejected ≡ some content)
            × (lookup name s'.validated ≡ lookup name s.validated))

  -- No directory changed at the name.
  pub record IsSame (name : String) (s s' : Ingress J) : Type 0 where
    pub in_quarantine : lookup name s'.quarantine ≡ lookup name s.quarantine
    pub in_validated : lookup name s'.validated ≡ lookup name s.validated
    pub in_rejected : lookup name s'.rejected ≡ lookup name s.rejected

  pub move-IsSettled :
      (name : String) (content : Content J) (v : Judgement) (s : Ingress J)
      → Judged has schema_errors stem_lower type_order name content v
      → IsSettled name content s (move has schema_errors stem_lower type_order name content v s)
  unfolding move
  move-IsSettled name content (take_in t) s j = record {
    gone = rw (lookup-remove name name s.quarantine, eq_refl name);
    placed = inl (j, rw (lookup-insert name name content s.validated, eq_refl name), refl);
  }
  move-IsSettled name content (turn_away r) s j = record {
    gone = rw (lookup-remove name name s.quarantine, eq_refl name);
    placed = inr (j, rw (lookup-insert name name content s.rejected, eq_refl name), refl);
  }

  pub move-IsSame :
      (name other : String) (content : Content J) (v : Judgement) (s : Ingress J)
      → str_eq other name ≡ false
      → IsSame other s (move has schema_errors stem_lower type_order name content v s)
  unfolding move
  move-IsSame name other content (take_in t) s n = record {
    in_quarantine = rw (lookup-remove name other s.quarantine, n);
    in_validated = rw (lookup-insert name other content s.validated, n);
    in_rejected = refl;
  }
  move-IsSame name other content (turn_away r) s n = record {
    in_quarantine = rw (lookup-remove name other s.quarantine, n);
    in_validated = refl;
    in_rejected = rw (lookup-insert name other content s.rejected, n);
  }

  pub IsSettled-then :
      (name : String) (content : Content J) (s s' s'' : Ingress J)
      → IsSettled name content s s'
      → IsSame name s' s''
      → IsSettled name content s s''
  IsSettled-then name content s s' s'' a b = record {
    gone = b.in_quarantine ∙ a.gone;
    placed = elim a.placed [
      | inl (j, v, r) ↦ inl (j, b.in_validated ∙ v, b.in_rejected ∙ r)
      | inr (j, r, v) ↦ inr (j, b.in_rejected ∙ r, b.in_validated ∙ v)
    ];
  }

  pub IsSettled-after :
      (name : String) (content : Content J) (s s' s'' : Ingress J)
      → IsSame name s s'
      → IsSettled name content s' s''
      → IsSettled name content s s''
  IsSettled-after name content s s' s'' a b = record {
    gone = b.gone;
    placed = elim b.placed [
      | inl (j, v, r) ↦ inl (j, v, r ∙ a.in_rejected)
      | inr (j, r, v) ↦ inr (j, r, v ∙ a.in_validated)
    ];
  }

  -- The files of these names are settled, those of all others where they were.
  pub record Settles (files : List String) (s s' : Ingress J) : Type 0 where
    pub settled :
        (name : String) (content : Content J)
        → contains name files ≡ true
        → lookup name s.quarantine ≡ some content
        → IsSettled name content s s'
    pub others : (name : String) → contains name files ≡ false → IsSame name s s'
