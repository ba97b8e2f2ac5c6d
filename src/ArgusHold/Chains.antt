-- ===== src/ArgusHold/Chains.antt =====
-- swarm/argus_hold/ledger_writer.py: appending keeps the chain, and the chain shows any change.
use acds.Prelude.{
  ℕ, suc, ◌+◌, String, ◌≡◌, refl, sym, ap, ◌∙◌, ◌↔◌, Bool, true, false, List, [], ◌∷◌, ◌++◌, arith,
  eq_iff, length, length-append, iff_trans, iff_and,
}
use acds.ArgusHold.Models.{StageResult, CommandEnvelope}
use acds.ArgusHold.Ledger.{
  EntryData, LedgerEntry, LedgerState, ChainViolation, objection_unless, genesis_hash, recover_from,
  open_ledger, next_entry, append_entry, verify_from, verify_chain,
}

nil-append : (xs ys : List ChainViolation) → (xs ++ ys ≡ []) ↔ ((xs ≡ []) × (ys ≡ []))
nil-append [] ys = (λ h. (refl, h), λ h. h.1)
nil-append (x ∷ xs) ys = (λ h. cc, λ h. cc (h.0))

nil-unless : (b : Bool) (v : ChainViolation) → (objection_unless b v ≡ []) ↔ (b ≡ true)
nil-unless true v = (λ h. refl, λ h. refl)
nil-unless false v = (λ h. cc, λ h. cc)

module _ (hash_content : EntryData → String) (hash_pair : String → String → String) where
  -- From one chain hash on, each entry hashes itself and the one before it.
  abbrev pub Links : String → List LedgerEntry → Type 0
  Links prev [] = Unit {0}
  Links prev (e ∷ lines) =
      (e.content_hash ≡ hash_content e.entry_data)
      × ((e.prev_hash ≡ prev)
          × ((e.chain_hash ≡ hash_pair prev e.content_hash) × Links e.chain_hash lines))

  pub verify_from_iff :
      (n : ℕ) (prev : String) (lines : List LedgerEntry)
      → (verify_from hash_content hash_pair n prev lines ≡ []) ↔ Links prev lines
  unfolding verify_from
  verify_from_iff n prev [] = (λ h. tt, λ h. refl)
  verify_from_iff n prev (e ∷ lines) = iff_trans (nil-append _ _) (
      iff_and (iff_trans (nil-unless _ _) (eq_iff e.content_hash (hash_content e.entry_data))) (
        iff_trans (nil-append _ _) (
          iff_and (iff_trans (nil-unless _ _) (eq_iff e.prev_hash prev)) (
            iff_trans (nil-append _ _) (
              iff_and
                (iff_trans (nil-unless _ _) (eq_iff e.chain_hash (hash_pair prev e.content_hash)))
                (verify_from_iff (n + 1) e.chain_hash lines))))))

  -- The hash that the next entry is chained to.
  abbrev pub tip_from : String → List LedgerEntry → String
  tip_from prev [] = prev
  tip_from prev (e ∷ lines) = tip_from e.chain_hash lines

  -- The numbers of the entries count up.
  abbrev pub CountsUp : ℕ → List LedgerEntry → Type 0
  CountsUp n [] = Unit {0}
  CountsUp n (e ∷ lines) = (e.entry_data.sequence_number ≡ n) × CountsUp (suc n) lines

  -- The file verifies, its entries are numbered from 0, and a writer that is opened on it is in the
  -- state of this one.
  pub record IsSound (s : LedgerState) : Type 0 where
    pub verifies : verify_chain hash_content hash_pair s.lines ≡ []
    pub numbered : CountsUp 0 s.lines
    pub reopened : open_ledger hash_content hash_pair s.lines ≡ s

  Links-append :
      (prev : String) (lines : List LedgerEntry) (e : LedgerEntry)
      → Links prev lines
      → Links (tip_from prev lines) (e ∷ [])
      → Links prev (lines ++ e ∷ [])
  Links-append prev [] e l h = h
  Links-append prev (x ∷ lines) e l h =
      (l.0, (l.1.0, (l.1.1.0, Links-append x.chain_hash lines e l.1.1.1 h)))

  CountsUp-append :
      (n : ℕ) (lines : List LedgerEntry) (e : LedgerEntry)
      → CountsUp n lines
      → e.entry_data.sequence_number ≡ n + length lines
      → CountsUp n (lines ++ e ∷ [])
  CountsUp-append n [] e c h = (omega arith, tt)
  CountsUp-append n (x ∷ lines) e c h = (c.0, CountsUp-append (suc n) lines e c.1 (omega arith))

  recover-tip :
      (prev : String) (n : ℕ) (lines : List LedgerEntry)
      → CountsUp n lines
      → recover_from hash_content hash_pair prev n lines ≡ (tip_from prev lines, n + length lines)
  unfolding recover_from
  recover-tip prev n [] c = ground arith
  recover-tip prev n (e ∷ lines) c =
      let next : e.entry_data.sequence_number + 1 ≡ suc n = omega (arith, c.0) in
      rw next (rw (recover-tip e.chain_hash (suc n) lines c.1) (ground arith))

  tip_from-append :
      (prev : String) (lines : List LedgerEntry) (e : LedgerEntry)
      → tip_from prev (lines ++ e ∷ []) ≡ e.chain_hash
  tip_from-append prev [] e = refl
  tip_from-append prev (x ∷ lines) e = tip_from-append x.chain_hash lines e

  open_ledger-eq :
      (lines : List LedgerEntry)
      → CountsUp 0 lines
      → open_ledger hash_content hash_pair lines ≡ record {
        lines = lines;
        prev_hash = tip_from genesis_hash lines;
        sequence = 0 + length lines;
      }
  unfolding open_ledger
  open_ledger-eq lines c = rw (recover-tip genesis_hash 0 lines c)

  appended-IsSound :
      (s : LedgerState) (e : LedgerEntry)
      → IsSound s
      → e.content_hash ≡ hash_content e.entry_data
      → e.prev_hash ≡ s.prev_hash
      → e.chain_hash ≡ hash_pair s.prev_hash e.content_hash
      → e.entry_data.sequence_number ≡ s.sequence
      → IsSound (record {
        lines = s.lines ++ e ∷ [];
        prev_hash = e.chain_hash;
        sequence = s.sequence + 1;
      })
  unfolding verify_chain
  appended-IsSound s e h content prev chain number =
      let now = sym h.reopened ∙ open_ledger-eq s.lines h.numbered in
      let tip : s.prev_hash ≡ tip_from genesis_hash s.lines =
        ap (λ (x : LedgerState). x.prev_hash) now in
      let count : s.sequence ≡ 0 + length s.lines = ap (λ (x : LedgerState). x.sequence) now in
      let linked = (verify_from_iff 1 genesis_hash s.lines).0 h.verifies in
      let numbered = CountsUp-append 0 s.lines e h.numbered (omega (arith, number, count)) in
      record {
        verifies = (verify_from_iff 1 genesis_hash (s.lines ++ e ∷ [])).1 (
            Links-append genesis_hash s.lines e linked
              (content, (prev ∙ tip, (chain ∙ ap (λ t. hash_pair t e.content_hash) tip, tt))));
        numbered = numbered;
        reopened =
            open_ledger-eq (s.lines ++ e ∷ []) numbered
            ∙ same_state (s.lines ++ e ∷ []) _ _ _ _ (tip_from-append genesis_hash s.lines e)
                (omega (arith, count, length-append {0} s.lines (e ∷ [])));
      }
    where
      same_state :
          (lines : List LedgerEntry) (a b : String) (n m : ℕ)
          → a ≡ b
          → n ≡ m
          → ◌≡◌ {A = LedgerState}
              (record { lines = lines; prev_hash = a; sequence = n })
              (record { lines = lines; prev_hash = b; sequence = m })
      same_state lines a b n m x y = cc

  -- Appending to a sound ledger leaves a sound one: the file verifies, its entries are numbered from
  -- 0, and a writer that is opened on it goes on where this one stops.
  pub append_entry-IsSound :
      (entry_id now : String) (envelope : CommandEnvelope) (results : List StageResult)
      (outcome : String) (s : LedgerState)
      → IsSound s
      → IsSound (append_entry hash_content hash_pair entry_id now envelope results outcome s)
  unfolding append_entry next_entry
  append_entry-IsSound entry_id now envelope results outcome s h =
      appended-IsSound s (next_entry hash_content hash_pair entry_id now envelope results outcome s)
        h refl refl refl refl
