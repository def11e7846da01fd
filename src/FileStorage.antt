-- ===== src/FileStorage.antt =====
-- filestorage.go: the lock file of one name, and the processes that lock and unlock it, as steps.
-- Creating the file, reading it, removing it and writing into it are separate steps.
pub mod Exclusion
use certmagic.Prelude.{
  ℕ, zero, suc, ◌+◌, ◌-◌, ◌*◌, ◌≡◌, Bool, true, false, Option, none, some, ltb, ◌==◌, if◌then◌else◌,
}
use certmagic.Certificate.{second}

abbrev pub lock_freshness_interval : ℕ
lock_freshness_interval = 5 * second

pub record LockMeta : Type 0 where
  pub created : ℕ
  pub updated : ℕ

unfoldable pub file_lock_is_stale : ℕ → LockMeta → Bool
file_lock_is_stale now meta =
    let ref = if meta.updated == 0 then meta.created else meta.updated in
    ltb (ref + lock_freshness_interval * 2) now

-- The file, with the process that created it; it is empty until it is written.
pub record LockFile : Type 0 where
  pub creator : ℕ
  pub contents : Option LockMeta

-- Where a process is. In the loop of Lock it has seen so many empty files; it tries to create the
-- file, looks at the one that exists, or is about to remove it. Then it writes its file, and holds
-- the lock.
pub data Phase : Type 0 where
  idle writing holding crashed : Phase
  trying looking removing : ℕ → Phase

-- The lock file, the time, the processes, and how many goroutines of each keep a lock file fresh.
pub record Locking : Type 0 where
  pub file : Option LockFile
  pub now : ℕ
  pub phase : ℕ → Phase
  pub keepers : ℕ → ℕ

unfoldable pub update : {A : Type 0} → ℕ → A → (ℕ → A) → ℕ → A
update p x f q = if q == p then x else f q

unfoldable pub nobody : Locking
nobody = record { file = none; now = 0; phase = λ p. idle; keepers = λ p. 0 }

-- What Lock does with the contents of the file that exists. After seven empty files an empty one is
-- read as one that was never written.
unfoldable pub after_contents : ℕ → ℕ → Option LockMeta → Phase
unfolding file_lock_is_stale
after_contents now count none =
    if ltb (suc count) 8
    then trying (suc count)
    else if file_lock_is_stale now (record { created = 0; updated = 0 })
    then removing (suc count)
    else trying (suc count)
after_contents now count (some meta) =
    if file_lock_is_stale now meta then removing count else trying count

-- The file may be gone.
unfoldable pub after_look : ℕ → ℕ → Option LockFile → Phase
unfolding after_contents
after_look now count none = trying count
after_look now count (some f) = after_contents now count f.contents

-- The process writes into the file that it created, also if that has been removed.
unfoldable pub write_meta : ℕ → ℕ → Option LockFile → Option LockFile
write_meta p now none = none
write_meta p now (some f) =
    if f.creator == p
    then some (record f { contents = some (record { created = now; updated = now }) })
    else some f

-- updateLockfileFreshness, where the file can be decoded.
unfoldable pub refresh : ℕ → LockMeta → LockMeta
refresh now meta = record meta { updated = now }

-- One step; stale files are removed only if the first argument is true. A keeper ends when the file
-- is gone or with an error. Refreshing the file is one step, unless it fails after the file was
-- truncated.
pub data Step : Bool → Locking → Locking → Type 0 where
  passes : {b : Bool} (s : Locking) → Step b s (record s { now = suc s.now })
  starts :
      {b : Bool} (s : Locking) (p : ℕ)
      → s.phase p ≡ idle
      → Step b s (record s { phase = update p (trying 0) s.phase })
  creates :
      {b : Bool} (s : Locking) (p c : ℕ)
      → s.phase p ≡ trying c
      → s.file ≡ none
      → Step b s (record s {
        file = some (record { creator = p; contents = none });
        phase = update p writing s.phase;
      })
  finds :
      {b : Bool} (s : Locking) (p c : ℕ) (f : LockFile)
      → s.phase p ≡ trying c
      → s.file ≡ some f
      → Step b s (record s { phase = update p (looking c) s.phase })
  looks :
      {b : Bool} (s : Locking) (p c : ℕ)
      → s.phase p ≡ looking c
      → Step b s (record s { phase = update p (after_look s.now c s.file) s.phase })
  removes :
      (s : Locking) (p c : ℕ)
      → s.phase p ≡ removing c
      → Step true s (record s { file = none; phase = update p (trying c) s.phase })
  cannot_remove :
      {b : Bool} (s : Locking) (p c : ℕ)
      → s.phase p ≡ removing c
      → Step b s (record s { phase = update p idle s.phase })
  gives_up :
      {b : Bool} (s : Locking) (p c : ℕ)
      → s.phase p ≡ looking c
      → Step b s (record s { phase = update p idle s.phase })
  cannot_create :
      {b : Bool} (s : Locking) (p c : ℕ)
      → s.phase p ≡ trying c
      → Step b s (record s { phase = update p idle s.phase })
  cannot_write :
      {b : Bool} (s : Locking) (p : ℕ)
      → s.phase p ≡ writing
      → Step b s (record s { phase = update p idle s.phase })
  writes :
      {b : Bool} (s : Locking) (p : ℕ)
      → s.phase p ≡ writing
      → Step b s (record s {
        file = write_meta p s.now s.file;
        phase = update p holding s.phase;
        keepers = update p (suc (s.keepers p)) s.keepers;
      })
  unlocks :
      {b : Bool} (s : Locking) (p : ℕ)
      → s.phase p ≡ holding
      → Step b s (record s { file = none; phase = update p idle s.phase })
  refreshes :
      {b : Bool} (s : Locking) (p k : ℕ) (f : LockFile) (meta : LockMeta)
      → s.keepers p ≡ suc k
      → s.file ≡ some f
      → f.contents ≡ some meta
      → Step b s (record s { file = some (record f { contents = some (refresh s.now meta) }) })
  loses :
      {b : Bool} (s : Locking) (p k : ℕ) (f : LockFile)
      → s.keepers p ≡ suc k
      → s.file ≡ some f
      → Step b s
          (record s { file = some (record f { contents = none }); keepers = update p k s.keepers })
  keeper_ends :
      {b : Bool} (s : Locking) (p k : ℕ)
      → s.keepers p ≡ suc k
      → Step b s (record s { keepers = update p k s.keepers })
  crashes :
      {b : Bool} (s : Locking) (p : ℕ)
      → Step b s (record s { phase = update p crashed s.phase; keepers = update p 0 s.keepers })

pub data Reach (b : Bool) : Locking → Type 0 where
  begins : Reach b nobody
  goes_on : (s s' : Locking) → Reach b s → Step b s s' → Reach b s'
