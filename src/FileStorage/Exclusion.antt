-- ===== src/FileStorage/Exclusion.antt =====
-- filestorage.go: who holds the lock.
use certmagic.Prelude.{
  ℕ, suc, ◌≡◌, ◌≢◌, ◌⊎◌, inl, inr, refl, ap, sym, ◌∙◌, subst, false, Bool-cases, Option, none, some,
  ltb, ◌==◌, arith,
}
use certmagic.FileStorage.{
  LockMeta, LockFile, Phase, idle, writing, holding, crashed, trying, looking, removing, Locking,
  update, nobody, after_contents, after_look, write_meta, file_lock_is_stale, Step, passes, starts,
  creates, finds, looks, gives_up, cannot_create, cannot_remove, cannot_write, loses, writes,
  unlocks, refreshes, keeper_ends, crashes, Reach, begins, goes_on,
}

-- A process that has created its file and not unlocked it.
abbrev pub IsOwner : Phase → Type 0
IsOwner writing = Unit {0}
IsOwner holding = Unit {0}
IsOwner _ = ⊥

-- The file that exists is the owner's.
abbrev Owned : Locking → Type 0
Owned s = (p : ℕ) → IsOwner (s.phase p) → (f : LockFile) × (s.file ≡ some f) × (f.creator ≡ p)

same_or_other :
    (p q : ℕ) (x : Phase) (f : ℕ → Phase)
    → IsOwner (update p x f q)
    → ((q ≡ p) × IsOwner x) ⊎ ((q ≢ p) × IsOwner (f q))
unfolding update
same_or_other p q x f o = elim (Bool-cases (q == p)) [
  | inl same ↦ inl (ground (arith, same), subst IsOwner (rw (update, same) refl) o)
  | inr other ↦ inr ((λ e. ground (arith, other, e)), subst IsOwner (rw (update, other) refl) o)
]

-- Steps of a process that is not an owner afterwards, and that keep the file.
not_owning :
    (s : Locking) (p : ℕ) (x : Phase)
    → (IsOwner x → ⊥)
    → Owned s
    → Owned (record s { phase = update p x s.phase })
not_owning s p x other_phase own q o = elim (same_or_other p q x s.phase o) [
  | inl (e, is) ↦ absurd (other_phase is)
  | inr (e, is) ↦ own q is
]

-- Steps that keep the processes and the creator of the file.
same_creator :
    (s : Locking) (f g : LockFile) (k : ℕ → ℕ)
    → s.file ≡ some f
    → g.creator ≡ f.creator
    → Owned s
    → Owned (record s { file = some g; keepers = k })
same_creator s f g k there same own q o =
    let (h, e, c) = own q o in let is : some f ≡ some h = (sym there ∙ e) in (g, refl, same ∙ cc)

-- Trying and removing are no owners.
abbrev IsInLoop : Phase → Type 0
IsInLoop (trying c) = Unit {0}
IsInLoop (removing c) = Unit {0}
IsInLoop _ = ⊥

after_contents-IsInLoop : (now c : ℕ) (m : Option LockMeta) → IsInLoop (after_contents now c m)
unfolding after_contents
after_contents-IsInLoop now c none = elim (Bool-cases (ltb (suc c) 8)) [
  | inl early ↦ rw (after_contents, early) tt
  | inr late ↦ elim (Bool-cases (file_lock_is_stale now (record { created = 0; updated = 0 }))) [
    | inl stale ↦ rw (after_contents, late, stale) tt
    | inr fresh ↦ rw (after_contents, late, fresh) tt
  ]
]
after_contents-IsInLoop now c (some meta) = elim (Bool-cases (file_lock_is_stale now meta)) [
  | inl stale ↦ rw (after_contents, stale) tt
  | inr fresh ↦ rw (after_contents, fresh) tt
]

in_loop : (x : Phase) → IsInLoop x → IsOwner x → ⊥
in_loop (trying c) l o = o
in_loop (removing c) l o = o
in_loop idle l o = o
in_loop (looking c) l o = o
in_loop crashed l o = o
in_loop writing l o = l
in_loop holding l o = l

after_look-not_owner : (now c : ℕ) (f : Option LockFile) → IsOwner (after_look now c f) → ⊥
unfolding after_look
after_look-not_owner now c none o = o
after_look-not_owner now c (some f) o =
    in_loop (after_contents now c f.contents) (after_contents-IsInLoop now c f.contents) o

write-creator :
    (p now : ℕ) (f : LockFile)
    → (g : LockFile) × (write_meta p now (some f) ≡ some g) × (g.creator ≡ f.creator)
unfolding write_meta
write-creator p now f = elim (Bool-cases (f.creator == p)) [
  | inl mine ↦ (
    record f { contents = some (record { created = now; updated = now }) },
    simp (write_meta, mine) refl,
    refl,
  )
  | inr other ↦ (f, simp (write_meta, other) refl, refl)
]

-- Two owners are the same.
one_owner : (s : Locking) (p q : ℕ) → Owned s → IsOwner (s.phase p) → IsOwner (s.phase q) → p ≡ q
one_owner s p q own o o' =
    let (f, e, c) = own p o in
    let (g, e', c') = own q o' in let is : some f ≡ some g = (sym e ∙ e') in cc

Step-Owned : (s s' : Locking) → Owned s → Step false s s' → Owned s'
unfolding update
Step-Owned s s' own (passes _) = own
Step-Owned s s' own (starts _ p e) = not_owning s p (trying 0) (λ o. o) own
Step-Owned s s' own (creates _ p c e gone) = λ q o. elim (same_or_other p q writing s.phase o) [
  | inl (same, is) ↦ (record { creator = p; contents = none }, refl, sym same)
  | inr (other, is) ↦ let (f, there, _) = own q is in let x = sym gone ∙ there in cc
]
Step-Owned s s' own (finds _ p c f e there) = not_owning s p (looking c) (λ o. o) own
Step-Owned s s' own (looks _ p c e) =
    not_owning s p (after_look s.now c s.file) (after_look-not_owner s.now c s.file) own
Step-Owned s s' own (gives_up _ p c e) = not_owning s p idle (λ o. o) own
Step-Owned s s' own (cannot_create _ p c e) = not_owning s p idle (λ o. o) own
Step-Owned s s' own (cannot_remove _ p c e) = not_owning s p idle (λ o. o) own
Step-Owned s s' own (cannot_write _ p e) = not_owning s p idle (λ o. o) own
Step-Owned s s' own (writes _ p e) = λ q o.
    let was : IsOwner (s.phase q) = (elim (same_or_other p q holding s.phase o) [
      | inl (same, is) ↦ subst (λ x. IsOwner (s.phase x)) (sym same) (subst IsOwner (sym e) tt)
      | inr (other, is) ↦ is
    ]) in
    let (f, there, c) = own q was in
    let (g, written, d) = write-creator p s.now f in
    (g, ap (write_meta p s.now) there ∙ written, d ∙ c)
Step-Owned s s' own (unlocks _ p e) = λ q o. elim (same_or_other p q idle s.phase o) [
  | inl (same, is) ↦ absurd is
  | inr (other, is) ↦ absurd (other (one_owner s q p own is (subst IsOwner (sym e) tt)))
]
Step-Owned s s' own (refreshes _ p k f meta e there written) =
    same_creator s f _ s.keepers there refl own
Step-Owned s s' own (loses _ p k f e there) =
    same_creator s f (record f { contents = none }) (update p k s.keepers) there refl own
Step-Owned s s' own (keeper_ends _ p k e) = own
Step-Owned s s' own (crashes _ p) = not_owning s p crashed (λ o. o) own

Reach-Owned : (s : Locking) → Reach false s → Owned s
unfolding nobody
Reach-Owned _ begins = λ p o. absurd o
Reach-Owned _ (goes_on s s' before step) = Step-Owned s s' (Reach-Owned s before) step

-- From the state without a lock file, whatever the processes do, in any order, with crashes, failures
-- and refreshes, but without the removal of a file that seems stale: at most one process has created
-- its file and not unlocked it, and the file that exists is that process's.
pub Reach-excludes :
    (s : Locking) (p q : ℕ)
    → Reach false s
    → IsOwner (s.phase p)
    → IsOwner (s.phase q)
    → (p ≡ q) × ((f : LockFile) × (s.file ≡ some f) × (f.creator ≡ p))
Reach-excludes s p q r o o' = let own = Reach-Owned s r in (one_owner s p q own o o', own p o)
