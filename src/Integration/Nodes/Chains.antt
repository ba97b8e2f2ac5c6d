-- ===== src/Integration/Nodes/Chains.antt =====
-- swarm/integration/execution_pipeline.py: the lineage of each process is one chain.
use acds.Prelude.{
  ℕ, String, ◌≡◌, refl, sym, ap, ◌∙◌, inl, inr, Option, none, some, List, [], ◌∷◌, ◌++◌, arith,
  eq_iff, str_eq, if◌then◌else◌, insert, lookup, lookup-insert, Bool-cases,
}
use mathlib.Core.List.{append-nil}
use acds.Integration.Contracts.{Fields, ExecutionContext, CapabilityResponse}
use acds.Integration.Nodes.Lineage.{
  LineageEntry, PipelineState, Document, get_chain, lineage_entry, record_lineage,
}

str_eq_comm : (a b : String) → str_eq a b ≡ str_eq b a
str_eq_comm a b = ground (arith, eq_iff a b, eq_iff b a)

-- Each entry's parent is the entry before it, from one id to another.
abbrev pub Follows : Option String → List LineageEntry → Option String → Type 0
Follows before [] last = before ≡ last
Follows before (e ∷ chain) last =
    (e.parent_entry_id ≡ before) × Follows (some e.entry_id) chain last

Follows-append :
    (before last : Option String) (chain : List LineageEntry) (e : LineageEntry)
    → Follows before chain last
    → e.parent_entry_id ≡ last
    → Follows before (chain ++ e ∷ []) (some e.entry_id)
Follows-append before last [] e f p = (p ∙ sym f, refl)
Follows-append before last (x ∷ chain) e f p =
    (f.0, Follows-append (some x.entry_id) last chain e f.1 p)

get_chain-append :
    (p : String) (entries : List LineageEntry) (e : LineageEntry)
    → get_chain p (entries ++ e ∷ [])
      ≡ get_chain p entries ++ (if str_eq e.process_id p then e ∷ [] else [])
unfolding get_chain
get_chain-append p [] e = refl
get_chain-append p (x ∷ entries) e = ground (arith, get_chain-append p entries e)

-- For every process, its entries in their order form one chain from no parent to the remembered one.
pub record IsLinked {W : Type 0} (s : PipelineState W) : Type 0 where
  pub linked :
      (p : String) → Follows none (get_chain p s.entries) (lookup p s.last_entry_by_process)

module _ {W : Type 0} (fresh : ℕ → String) (hash_data : Document → String) where
  pub record_lineage-IsLinked :
      (context : ExecutionContext) (node_type capability : String) (node_input : Fields)
      (output : Document) (artifacts : List String) (response : Option CapabilityResponse)
      (s : PipelineState W)
      → IsLinked s
      → IsLinked (
          record_lineage fresh hash_data context node_type capability node_input output artifacts
            response s)
  unfolding record_lineage
  record_lineage-IsLinked context node_type capability node_input output artifacts response s h =
      record { linked = each }
    where
      e : LineageEntry
      e =
          lineage_entry fresh hash_data context node_type capability node_input output artifacts
            response s

      each :
          (p : String)
          → Follows none
              (get_chain p (s.entries ++ e ∷ []))
              (lookup p (insert context.process_id e.entry_id s.last_entry_by_process))
      each p = elim (Bool-cases (str_eq p context.process_id)) [
        | inl y ↦
            let own = str_eq_comm context.process_id p ∙ y in
            rw
              (
                get_chain-append p s.entries e,
                lookup-insert context.process_id p e.entry_id s.last_entry_by_process,
                y,
                own,
              )
              (Follows-append none (lookup p s.last_entry_by_process) (get_chain p s.entries) e
                (h.linked p) (ap (λ q. lookup q s.last_entry_by_process) (sym ((eq_iff _ _).0 y))))
        | inr n ↦
            let other = str_eq_comm context.process_id p ∙ n in
            rw
              (
                get_chain-append p s.entries e,
                lookup-insert context.process_id p e.entry_id s.last_entry_by_process,
                n,
                other,
                append-nil,
              )
              (h.linked p)
      ]
