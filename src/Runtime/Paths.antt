-- ===== src/Runtime/Paths.antt =====
-- Path containment as the validator, the execution gate and the tool gate decide it:
-- `p == a or p.startswith(a.rstrip("/") + "/")`, and the tool gate's form of it.
use acds.Prelude.{
  ◌≡◌, refl, ◌↔◌, ◌⊎◌, inl, inr, Bool, true, ◌||◌, [], ◌∷◌, ◌++◌, arith, Bool-cases, is_empty, Text,
  text_eq, text_eq_iff, text_eq_refl, starts_with, starts_with_iff, strip_slash, strip_slash-append,
  strip_slash_idem, slash,
}

-- The validator's and the execution gate's test.
unfoldable pub covers : Text → Text → Bool
covers p a = text_eq p a || starts_with p (strip_slash a ++ slash ∷ [])

-- The tool gate's test: `_path_in_scope` strips both paths first.
unfoldable pub covers_stripped : Text → Text → Bool
covers_stripped p a =
    let allowed_norm = strip_slash a in
    let target_norm = strip_slash p in
    text_eq target_norm allowed_norm || starts_with target_norm (allowed_norm ++ slash ∷ [])

-- `p` is `a`, or a path below the directory `a`.
abbrev pub Inside : Text → Text → Type 0
Inside p a = (p ≡ a) ⊎ ((r : Text) × (p ≡ (strip_slash a ++ slash ∷ []) ++ r))

pub covers_iff : (p a : Text) → (covers p a ≡ true) ↔ Inside p a
unfolding covers
covers_iff p a = (
  λ h. elim (Bool-cases (text_eq p a)) [
    | inl e ↦ inl ((text_eq_iff p a).0 e)
    | inr n ↦ inr ((starts_with_iff p (strip_slash a ++ slash ∷ [])).0 (rw n at h))
  ],
  λ h. elim h [
    | inl e ↦ rw ((text_eq_iff p a).1 e)
    | inr s ↦ let t = (starts_with_iff p (strip_slash a ++ slash ∷ [])).1 s in ground arith
  ],
)

strip_slash-slash : strip_slash (slash ∷ []) ≡ []
unfolding strip_slash
strip_slash-slash = refl

strip_slash-directory : (s : Text) → strip_slash (s ++ slash ∷ []) ≡ strip_slash s
strip_slash-directory s = rw strip_slash-append (rw strip_slash-slash)

strip_slash-below :
    (s r : Text)
    → (strip_slash ((s ++ slash ∷ []) ++ r) ≡ strip_slash s)
      ⊎ (strip_slash ((s ++ slash ∷ []) ++ r) ≡ (s ++ slash ∷ []) ++ strip_slash r)
strip_slash-below s r = elim (Bool-cases (is_empty (strip_slash r))) [
  | inl e ↦ inl (rw strip_slash-append (rw e (strip_slash-directory s)))
  | inr n ↦ inr (rw strip_slash-append (rw n))
]

-- A path that an entry covers by the prefix test of the validator and the execution gate, the entry
-- covers by the prefix test of the tool gate, which strips the slashes at the ends of both first.
pub covers→covers_stripped : (p a : Text) → covers p a ≡ true → covers_stripped p a ≡ true
unfolding covers_stripped
covers→covers_stripped p a h = elim ((covers_iff p a).0 h) [
  | inl e ↦ rw (← e) (rw (text_eq_refl (strip_slash p)))
  | inr (r, e) ↦ rw e (elim (strip_slash-below (strip_slash a) r) [
    | inl same ↦ rw (same, strip_slash_idem a) (rw (text_eq_refl (strip_slash a)))
    | inr below ↦
        let sub = (starts_with_iff _ (strip_slash a ++ slash ∷ [])).1 (strip_slash r, below) in
        ground arith
  ])
]
