-- ===== src/Runtime/Exchange/Files.antt =====
-- A directory as a dictionary from names to files, with `sorted(directory.glob("*.json"))`.
use Prim.Native.Nat.{Ordering}
use Prim.Native.String.{compare}
use acds.Prelude.{
  String, Text, Bool, true, false, ◌||◌, List, [], ◌∷◌, if◌then◌else◌, str_eq, text_eq, codes, keep,
}

abbrev pub Directory : Type 0 → Type 0
Directory F = List (String × F)

unfoldable pub ends_with : Text → Text → Bool
unfolding text_eq
ends_with [] suffix = text_eq [] suffix
ends_with (c ∷ t) suffix = text_eq (c ∷ t) suffix || ends_with t suffix

-- The pattern `*.json`.
unfoldable pub is_json : String → Bool
unfolding ends_with
is_json name = ends_with (codes name) (codes ".json")

unfoldable pub not_after : String → String → Bool
not_after a b = elim (compare a b) [ Ordering.gt ↦ false | _ ↦ true ]

unfoldable pub insert_name : String → List String → List String
unfolding not_after
insert_name a [] = a ∷ []
insert_name a (b ∷ names) = if not_after a b then a ∷ b ∷ names else b ∷ insert_name a names

unfoldable pub sort_names : List String → List String
unfolding insert_name
sort_names [] = []
sort_names (a ∷ names) = insert_name a (sort_names names)

module _ {F : Type 0} where
  unfoldable pub names : Directory F → List String
  names [] = []
  names ((name, file) ∷ rest) = name ∷ names rest

  unfoldable pub sorted_names : Directory F → List String
  unfolding sort_names keep is_json names
  sorted_names directory = sort_names (keep is_json (names directory))

  -- The directory without a file.
  unfoldable pub remove : String → Directory F → Directory F
  remove name [] = []
  remove name ((other, file) ∷ rest) =
      let others = remove name rest in if str_eq name other then others else (other, file) ∷ others
