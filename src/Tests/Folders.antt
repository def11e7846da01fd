-- ===== src/Tests/Folders.antt =====
-- The deletion of a folder from a map of files.
use certmagic.Prelude.{
  ◌≡◌, none, [], ◌∷◌, ◌++◌, if◌then◌else◌, Str, codes, str_eq, str_eq_iff, has_prefix, Dict, lookup,
  delete, lookup-delete, ◌||◌, arith, Bool-cases, inl, inr, ap,
}

unfoldable pub without_folder : Str → Dict Str → Dict Str
without_folder k [] = []
without_folder k ((j, v) ∷ m) =
    let rest = without_folder k m in if has_prefix (k ++ codes "/") j then rest else (j, v) ∷ rest

pub lookup-without_folder :
    (j k : Str) (m : Dict Str)
    → lookup j (without_folder k m) ≡ (if has_prefix (k ++ codes "/") j then none else lookup j m)
unfolding lookup without_folder
lookup-without_folder j k [] = ground arith
lookup-without_folder j k ((i, v) ∷ m) = elim (Bool-cases (str_eq i j)) [
  | inl same ↦
      let s = (str_eq_iff i j).0 same in
      ground (arith, lookup-without_folder j k m, ap (has_prefix (k ++ codes "/")) s)
  | inr other ↦ ground (arith, lookup-without_folder j k m)
]

-- Deleting a key and what is below it.
unfoldable pub delete_all : Str → Dict Str → Dict Str
unfolding without_folder
delete_all k m = delete k (without_folder k m)

pub lookup-delete_all :
    (j k : Str) (m : Dict Str)
    → lookup j (delete_all k m)
      ≡ (if str_eq k j || has_prefix (k ++ codes "/") j then none else lookup j m)
unfolding delete_all
lookup-delete_all j k m =
    ground (arith, lookup-delete j k (without_folder k m), lookup-without_folder j k m)
