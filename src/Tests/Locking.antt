-- ===== src/Tests/Locking.antt =====
-- A process that has taken the lock.
use certmagic.Prelude.{ℕ, ◌≡◌, refl, false, some}
use certmagic.FileStorage.{
  LockFile, Phase, holding, Locking, update, nobody, write_meta, starts, creates, writes, Reach,
  begins, goes_on,
}
use certmagic.FileStorage.Exclusion.{IsOwner, Reach-excludes}

abbrev process : ℕ
process = 1

abbrev held : Locking
held = record {
  file = some (record { creator = 1; contents = some (record { created = 0; updated = 0 }) });
  now = 0;
  phase = update 1 holding (update 1 Phase.writing (update 1 (Phase.trying 0) (λ p. Phase.idle)));
  keepers = update 1 1 (λ p. 0);
}

held_reached : Reach false held
unfolding update nobody write_meta
held_reached =
    goes_on _ _ (goes_on _ _ (goes_on _ _ begins (starts nobody 1 refl)) (creates _ 1 0 refl refl))
      (writes _ 1 refl)

held_by_one : IsOwner (held.phase 1)
unfolding update
held_by_one = tt

Reach-excludes_example :
    (process ≡ process) × ((f : LockFile) × (held.file ≡ some f) × (f.creator ≡ process))
Reach-excludes_example = Reach-excludes held process process held_reached held_by_one held_by_one
