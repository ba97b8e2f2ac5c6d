-- ===== src/Runtime/Exchange/Settling.antt =====
-- runtime/exchange/ingress.py: every file in quarantine is settled by what it is.
use acds.Prelude.{
  String, Text, ◌≡◌, refl, sym, ap, ◌∙◌, subst, inl, inr, Bool, true, false, some, List, [], ◌∷◌,
  map, arith, ok, All, All-mono, eq_iff, str_eq, contains, lookup, Bool-cases,
}
use acds.Prelude.States.{lift, Succeeds, Succeeds-bind}
use acds.Runtime.Exchange.Files.{names, sorted_names}
use acds.Runtime.Exchange.Names.{Distinct, sorted_names-Distinct, All-sorted_names}
use acds.Runtime.Exchange.Acceptance.{IsReadable, Judged, judge_file-Judged}
use acds.Runtime.Exchange.Moves.{
  IsSettled, move-IsSettled, move-IsSame, IsSettled-then, IsSettled-after, Settles,
}
use acds.Runtime.Exchange.{
  Content, Judgement, Ingress, Outcome, judge_file, move, settle_as, process_found,
  process_artifact, process_all, process_quarantine,
}

module _ {J : Type 0} (has : J → String → Bool) (schema_errors : J → List String)
    (stem_lower : String → Text) (type_order : List String) where
  -- Each file is there, and no number, Boolean or null.
  abbrev AreThere : List String → Ingress J → Type 0
  AreThere files s =
      All
        (λ name.
          (content : Content J) × (lookup name s.quarantine ≡ some content) × IsReadable content)
        files

  Settles-cons :
      (name : String) (files : List String) (content : Content J) (v : Judgement)
      (s s'' : Ingress J)
      → contains name files ≡ false
      → lookup name s.quarantine ≡ some content
      → Judged has schema_errors stem_lower type_order name content v
      → Settles has schema_errors stem_lower type_order files
          (move has schema_errors stem_lower type_order name content v s)
          s''
      → Settles has schema_errors stem_lower type_order (name ∷ files) s s''
  unfolding contains
  Settles-cons name files content v s s'' new there j rest = record {
    settled = λ x c m e. elim (Bool-cases (str_eq x name)) [
      | inl y ↦
          let same : x ≡ name = (eq_iff x name).0 y in
          let there' : lookup name s.quarantine ≡ some c = rw same at e in
          let first =
            IsSettled-then has schema_errors stem_lower type_order name content s s' s''
              (move-IsSettled has schema_errors stem_lower type_order name content v s j)
              (rest.others name new) in
          subst (λ z. IsSettled has schema_errors stem_lower type_order z c s s'') (sym same)
            (subst (λ z. IsSettled has schema_errors stem_lower type_order name z s s'')
              (cc (there, there')) first)
      | inr n ↦
          let moved = move-IsSame has schema_errors stem_lower type_order name x content v s n in
          let later : contains x files ≡ true = rw n at m in
          IsSettled-after has schema_errors stem_lower type_order x c s s' s'' moved
            (rest.settled x c later (moved.in_quarantine ∙ e))
    ];
    others = λ x m.
        let n : str_eq x name ≡ false = ground arith in
        let out : contains x files ≡ false = ground arith in
        let a = move-IsSame has schema_errors stem_lower type_order name x content v s n in
        let b = rest.others x out in
        record {
          in_quarantine = b.in_quarantine ∙ a.in_quarantine;
          in_validated = b.in_validated ∙ a.in_validated;
          in_rejected = b.in_rejected ∙ a.in_rejected;
        };
  }
    where
      s' : Ingress J
      s' = move has schema_errors stem_lower type_order name content v s

  -- The verdict of the result is that of the tests on the file as it stood in quarantine, and it takes
  -- the file in exactly when the file is acceptable.
  abbrev pub Tells : Ingress J → Outcome → Type 0
  Tells s o =
      (content : Content J) × (lookup o.file_name s.quarantine ≡ some content)
      × (judge_file has schema_errors stem_lower type_order o.file_name content ≡ ok o.verdict)
      × Judged has schema_errors stem_lower type_order o.file_name content o.verdict

  -- What the loop over the files returns, a result for each, and leaves.
  abbrev pub Processed : List String → Ingress J → List Outcome → Ingress J → Type 0
  Processed files s outcomes s' =
      (map (λ (o : Outcome). o.file_name) outcomes ≡ files)
      × Settles has schema_errors stem_lower type_order files s s'
      × All (Tells s) outcomes

  -- What is told of a file after another was moved was so before.
  Tells-before :
      (name : String) (content : Content J) (v : Judgement) (s : Ingress J) (o : Outcome)
      → Judged has schema_errors stem_lower type_order name content v
      → Tells (move has schema_errors stem_lower type_order name content v s) o
      → Tells s o
  Tells-before name content v s o j (c, there, judged, told) =
      elim (Bool-cases (str_eq o.file_name name)) [
        | inl y ↦
            let same : o.file_name ≡ name = (eq_iff o.file_name name).0 y in
            let gone =
              (move-IsSettled has schema_errors stem_lower type_order name content v s j).gone in
            absurd (cc (gone, there, same))
        | inr n ↦
            let moved =
              move-IsSame has schema_errors stem_lower type_order name o.file_name content v s n in
            (c, sym moved.in_quarantine ∙ there, judged, told)
      ]

  AreThere-moved :
      (name : String) (files : List String) (content : Content J) (v : Judgement) (s : Ingress J)
      → contains name files ≡ false
      → AreThere files s
      → AreThere files (move has schema_errors stem_lower type_order name content v s)
  unfolding contains
  AreThere-moved name [] content v s n a = tt
  AreThere-moved name (x ∷ files) content v s n a =
      let other : str_eq x name ≡ false = ground (arith, eq_iff x name, eq_iff name x) in
      let later : contains name files ≡ false = ground arith in
      let same = move-IsSame has schema_errors stem_lower type_order name x content v s other in
      ((a.0.0, same.in_quarantine ∙ a.0.1, a.0.2), AreThere-moved name files content v s later a.1)

  process_artifact-eq :
      (name : String) (content : Content J) (v : Judgement) (s : Ingress J)
      → lookup name s.quarantine ≡ some content
      → judge_file has schema_errors stem_lower type_order name content ≡ ok v
      → process_artifact has schema_errors stem_lower type_order name s ≡ (
        ok (record { file_name = name; verdict = v }),
        move has schema_errors stem_lower type_order name content v s,
      )
  unfolding process_artifact process_found settle_as
  process_artifact-eq name content v s there judged = rw (there, judged)

  process_all-Settles :
      (files : List String) (s : Ingress J)
      → Distinct files
      → AreThere files s
      → Succeeds (Processed files s) (process_all has schema_errors stem_lower type_order files s)
  unfolding process_all contains
  process_all-Settles [] s d a = (
    refl,
    record {
      settled = λ x c m e. cc;
      others = λ x m. record { in_quarantine = refl; in_validated = refl; in_rejected = refl };
    },
    tt,
  )
  process_all-Settles (name ∷ files) s d a =
      let (content, there, readable) = a.0 in
      let (v, judged, j) =
        judge_file-Judged has schema_errors stem_lower type_order name content readable in
      let s' = move has schema_errors stem_lower type_order name content v s in
      let ih = process_all-Settles files s' d.1 (AreThere-moved name files content v s d.0 a.1) in
      let outcome : Outcome = record { file_name = name; verdict = v } in
      rw (process_artifact-eq name content v s there judged) (
        Succeeds-bind (Processed files s') (Processed (name ∷ files) s)
          (process_all has schema_errors stem_lower type_order files)
          (λ outcomes. lift (ok (outcome ∷ outcomes))) s' ih
          (λ outcomes s'' p. (
            ap (λ l. name ∷ l) p.0,
            Settles-cons name files content v s s'' d.0 there j p.1,
            (
              (content, there, judged, j),
              All-mono (λ o t. Tells-before name content v s o j t) outcomes p.2,
            ),
          )))

  -- From a quarantine in which no name stands twice and no file is a JSON number, Boolean or null,
  -- processing returns a result for each JSON file in the order of their names; each of them has
  -- left quarantine and stands, as it was, among the validated if it is acceptable and among the
  -- rejected if not; every other file is where it was; and each result has the verdict that the tests
  -- give of its file, which is to take it in exactly when it is acceptable.
  pub process_quarantine-Settles :
      (s : Ingress J)
      → Distinct (names s.quarantine)
      → All (λ (row : String × Content J). IsReadable row.1) s.quarantine
      → Succeeds
          (Processed (sorted_names s.quarantine) s)
          (process_quarantine has schema_errors stem_lower type_order s)
  unfolding process_quarantine
  process_quarantine-Settles s d a =
      process_all-Settles (sorted_names s.quarantine) s (sorted_names-Distinct s.quarantine d)
        (All-sorted_names IsReadable s.quarantine a)
