-- ===== src/Storage/Backend.antt =====
-- storage.go: the interface Storage, as its comments describe it, for keys that are files. The
-- implementation is the user's; FileStorage is one.
use certmagic.Prelude.{
  ◌≡◌, refl, ◌∙◌, inl, inr, ◌||◌, Bool-cases, str_eq_refl, Bool, true, false, not, ◌&&◌, Option,
  none, some, Str, codes, str_eq, has_prefix, ◌++◌, if◌then◌else◌, Result, ok, err,
}

-- `store` and `delete` give the new state and whether there was no error. `load` is what a key
-- holds, and a key is broken where reading it gives another error than that it does not exist.
-- Deleting a key also deletes those that it is the folder of.
pub record Storage : Type 1 where
  pub State : Type 0
  pub load : State → Str → Option Str
  pub broken : State → Str → Bool
  pub store : Str → Str → State → State × Bool
  pub delete : Str → State → State × Bool
  pub load-store :
      (k v : Str) (s : State)
      → (store k v s).1 ≡ true
      → (j : Str) → load (store k v s).0 j ≡ (if str_eq k j then some v else load s j)
  pub load-delete :
      (k : Str) (s : State)
      → (delete k s).1 ≡ true
      → (j : Str)
      → load (delete k s).0 j
        ≡ (if str_eq k j || has_prefix (k ++ codes "/") j then none else load s j)

pub data LoadError : Type 0 where
  not_exist no_resources unreadable undecodable not_ascii : LoadError

module _ (st : Storage) where
  -- A deleted key holds nothing.
  pub delete-none :
      (k : Str) (s : st.State) → (st.delete k s).1 ≡ true → st.load (st.delete k s).0 k ≡ none
  delete-none k s good = st.load-delete k s good k ∙ rw (str_eq_refl k) refl

  -- Deleting brings nothing back.
  pub delete-still_none :
      (k : Str) (s : st.State) (j : Str)
      → (st.delete k s).1 ≡ true
      → st.load s j ≡ none
      → st.load (st.delete k s).0 j ≡ none
  delete-still_none k s j good gone =
      elim (Bool-cases (str_eq k j || has_prefix (k ++ codes "/") j)) [
        | inl inside ↦ st.load-delete k s good j ∙ rw inside refl
        | inr outside ↦ st.load-delete k s good j ∙ rw outside gone
      ]

  -- Load: the value, or an error.
  unfoldable pub read : st.State → Str → Result LoadError Str
  read s k =
      if st.broken s k
      then err unreadable
      else elim (st.load s k) [ none ↦ err not_exist | some v ↦ ok v ]

  -- Exists: false also where there was an error.
  unfoldable pub exists : st.State → Str → Bool
  exists s k = not (st.broken s k) && elim (st.load s k) [ none ↦ false | some v ↦ true ]
