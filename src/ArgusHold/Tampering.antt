-- ===== src/ArgusHold/Tampering.antt =====
-- swarm/argus_hold/ledger_writer.py: the chain shows any change of its entries.
use acds.Prelude.{String, ◌≡◌, refl, sym, ◌∙◌, ◌⊎◌, ◌≢◌, inl, inr, List, [], ◌∷◌, arith, length}
use acds.ArgusHold.Ledger.{EntryData, LedgerEntry, genesis_hash, verify_chain}
use acds.ArgusHold.Chains.{Links, verify_from_iff, tip_from}

same_entry :
    (x y : LedgerEntry)
    → x.entry_data ≡ y.entry_data
    → x.content_hash ≡ y.content_hash
    → x.prev_hash ≡ y.prev_hash
    → x.chain_hash ≡ y.chain_hash
    → x ≡ y
same_entry x y a b c d =
    λ i. record { entry_data = a i; content_hash = b i; prev_hash = c i; chain_hash = d i }

certain : {P Q : Type 0} → P ⊎ (¬ Q) → Q → P
certain (inl p) q = p
certain (inr n) q = absurd (n q)

module _ (hash_content : EntryData → String) (hash_pair : String → String → String) where
  -- At each place the two entries, and what their chain hashes are of, are the same or have different
  -- hashes.
  abbrev pub NoCollision : String → String → List LedgerEntry → List LedgerEntry → Type 0
  NoCollision p q (x ∷ xs) (y ∷ ys) =
      ((x.entry_data ≡ y.entry_data) ⊎ (hash_content x.entry_data ≢ hash_content y.entry_data))
      × (((p ≡ q) × (x.content_hash ≡ y.content_hash))
          ⊎ (hash_pair p x.content_hash ≢ hash_pair q y.content_hash))
      × NoCollision x.chain_hash y.chain_hash xs ys
  NoCollision p q _ _ = Unit {0}

  same_chain :
      (p q : String) (xs ys : List LedgerEntry)
      → NoCollision p q xs ys
      → Links hash_content hash_pair p xs
      → Links hash_content hash_pair q ys
      → length xs ≡ length ys
      → tip_from hash_content hash_pair p xs ≡ tip_from hash_content hash_pair q ys
      → (p ≡ q) × (xs ≡ ys)
  same_chain p q [] [] c l m n t = (t, refl)
  same_chain p q [] (y ∷ ys) c l m n t = absurd (omega arith)
  same_chain p q (x ∷ xs) [] c l m n t = absurd (omega arith)
  same_chain p q (x ∷ xs) (y ∷ ys) (content, pair, c) l m n t =
      let (chains, rest) =
        same_chain x.chain_hash y.chain_hash xs ys c l.1.1.1 m.1.1.1 (omega arith) t in
      let same_pair = sym l.1.1.0 ∙ chains ∙ m.1.1.0 in
      let (before, contents) = certain pair same_pair in
      let data' = certain content (sym l.0 ∙ contents ∙ m.0) in
      let entry = same_entry x y data' contents (l.1.0 ∙ before ∙ sym m.1.0) chains in
      (before, λ i. entry i ∷ rest i)

  -- Where no hash collides, two ledgers that both verify, have as many entries and end in the same
  -- chain hash are the same: no entry can be changed, moved or replaced unseen.
  pub verify_chain_unique :
      (xs ys : List LedgerEntry)
      → NoCollision genesis_hash genesis_hash xs ys
      → verify_chain hash_content hash_pair xs ≡ []
      → verify_chain hash_content hash_pair ys ≡ []
      → length xs ≡ length ys
      → tip_from hash_content hash_pair genesis_hash xs
        ≡ tip_from hash_content hash_pair genesis_hash ys
      → xs ≡ ys
  unfolding verify_chain
  verify_chain_unique xs ys c v w n t =
      (same_chain genesis_hash genesis_hash xs ys c
        ((verify_from_iff hash_content hash_pair 1 genesis_hash xs).0 v)
        ((verify_from_iff hash_content hash_pair 1 genesis_hash ys).0 w) n t).1
