-- ===== src/Storage/Locks.antt =====
-- storage.go: the locks that this process holds. What the storage answers is an argument: whether
-- Lock or Unlock gave no error. A storage is told by a number.
use certmagic.Prelude.{
  ℕ, ◌≡◌, refl, ◌∙◌, inl, inr, Bool, true, false, ◌&&◌, ◌||◌, Bool-cases, Option, none, some, [],
  ◌∷◌, if◌then◌else◌, Str, str_eq, str_eq_iff, Dict, lookup, insert, delete, lookup-delete, arith,
}

abbrev pub Locks : Type 0
Locks = Dict ℕ

unfoldable pub acquire_lock : (locked : Bool) (storage : ℕ) → Str → Locks → Locks × Bool
acquire_lock locked storage key locks =
    if locked then (insert key storage locks, true) else (locks, false)

unfoldable pub release_lock : (unlocked : Bool) → Str → Locks → Locks × Bool
release_lock unlocked key locks = if unlocked then (delete key locks, true) else (locks, false)

-- The loop of CleanUpOwnLocks over the entries of the map.
clean_up : (ℕ → Str → Bool) → Locks → Locks → Locks
clean_up unlocks [] locks = locks
clean_up unlocks ((key, storage) ∷ entries) locks =
    clean_up unlocks entries (if unlocks storage key then delete key locks else locks)

unfoldable pub clean_up_own_locks : (ℕ → Str → Bool) → Locks → Locks
unfolding clean_up
clean_up_own_locks unlocks locks = clean_up unlocks locks locks

-- Whether an entry of a list has a key and can be unlocked.
freed : (ℕ → Str → Bool) → Str → Locks → Bool
freed unlocks k [] = false
freed unlocks k ((key, storage) ∷ entries) =
    (str_eq key k && unlocks storage key) || freed unlocks k entries

lookup-clean_up :
    (unlocks : ℕ → Str → Bool) (k : Str) (entries locks : Locks)
    → lookup k (clean_up unlocks entries locks)
      ≡ (if freed unlocks k entries then none else lookup k locks)
unfolding clean_up freed
lookup-clean_up unlocks k [] locks = refl
lookup-clean_up unlocks k ((key, storage) ∷ entries) locks =
    lookup-clean_up unlocks k entries (if unlocks storage key then delete key locks else locks)
    ∙ ground (arith, lookup-delete k key locks)

-- Each key stands once in the map.
abbrev pub Distinct : Locks → Type 0
Distinct [] = Unit {0}
Distinct ((key, storage) ∷ m) = (lookup key m ≡ none) × Distinct m

unfoldable pub left_over : (ℕ → Str → Bool) → Str → Option ℕ → Option ℕ
left_over unlocks k none = none
left_over unlocks k (some storage) = if unlocks storage k then none else some storage

freed-none :
    (unlocks : ℕ → Str → Bool) (k : Str) (m : Locks) → lookup k m ≡ none → freed unlocks k m ≡ false
unfolding freed lookup
freed-none unlocks k [] e = refl
freed-none unlocks k ((key, storage) ∷ m) e = ground (arith, freed-none unlocks k m)

freed-lookup :
    (unlocks : ℕ → Str → Bool) (k : Str) (m : Locks)
    → Distinct m
    → (if freed unlocks k m then none else lookup k m) ≡ left_over unlocks k (lookup k m)
unfolding freed lookup left_over
freed-lookup unlocks k [] d = refl
freed-lookup unlocks k ((key, storage) ∷ m) d = elim (Bool-cases (str_eq key k)) [
  | inl same ↦
      let s = (str_eq_iff key k).0 same in
      rw (same, freed-none unlocks k m (rw s at d.0), s) (ground arith)
  | inr other ↦ rw other (freed-lookup unlocks k m d.1)
]

-- Cleaning up forgets exactly the locks whose storage gave no error on Unlock.
pub clean_up_own_locks_lem :
    (unlocks : ℕ → Str → Bool) (locks : Locks) (k : Str)
    → Distinct locks
    → lookup k (clean_up_own_locks unlocks locks) ≡ left_over unlocks k (lookup k locks)
unfolding clean_up_own_locks
clean_up_own_locks_lem unlocks locks k d =
    lookup-clean_up unlocks k locks locks ∙ freed-lookup unlocks k locks d
