-- ===== src/Async/Jobs.antt =====
-- async.go: the job manager. A step is what a goroutine does under the lock, or the end of a job.
use certmagic.Prelude.{
  ℕ, suc, ◌+◌, ◌-◌, ◌≡◌, Bool, true, false, List, [], ◌∷◌, ◌++◌, ltb, if◌then◌else◌, Str, str_eq,
  elem,
}

pub record NamedJob : Type 0 where
  pub name : Str
  pub job : ℕ

-- `names` is the map names, of which only the keys matter.
pub record JobManager : Type 0 where
  pub max_concurrent_jobs : ℕ
  pub active_workers : ℕ
  pub queue : List NamedJob
  pub names : List Str

-- delete(jm.names, name)
unfoldable pub without_name : Str → List Str → List Str
without_name n [] = []
without_name n (m ∷ ms) = let rest = without_name n ms in if str_eq m n then rest else m ∷ rest

-- What Submit appends and starts: the new manager, and whether a worker is started.
unfoldable pub enqueue : NamedJob → JobManager → JobManager × Bool
enqueue j jm =
    let queued = record jm { queue = jm.queue ++ j ∷ [] } in
    if ltb jm.active_workers jm.max_concurrent_jobs
    then (record queued { active_workers = jm.active_workers + 1 }, true)
    else (queued, false)

unfoldable pub submit : NamedJob → JobManager → JobManager × Bool
unfolding enqueue
submit j jm =
    if str_eq j.name []
    then enqueue j jm
    else if elem j.name jm.names
    then (jm, false)
    else enqueue j (record jm { names = j.name ∷ jm.names })

-- What a worker does when its job has returned.
unfoldable pub forget : NamedJob → JobManager → JobManager
unfolding without_name
forget j jm = if str_eq j.name [] then jm else record jm { names = without_name j.name jm.names }

-- The manager and its workers: those at the top of their loop, those that run a job, and the jobs
-- whose panic ended their worker.
pub record System : Type 0 where
  pub manager : JobManager
  pub looping : ℕ
  pub running : List NamedJob
  pub crashed : List NamedJob

abbrev pub spawned : Bool → ℕ
spawned true = 1
spawned false = 0

unfoldable pub after_submit : NamedJob → System → System
unfolding submit
after_submit j s =
    let (jm, started) = submit j s.manager in
    record s { manager = jm; looping = s.looping + spawned started }

pub data Step : System → System → Type 0 where
  submits : (s : System) (j : NamedJob) → Step s (after_submit j s)
  takes :
      (s : System) (n : ℕ) (next : NamedJob) (rest : List NamedJob)
      → s.looping ≡ suc n
      → s.manager.queue ≡ next ∷ rest
      → Step s (record s {
        manager = record (s.manager) { queue = rest };
        looping = n;
        running = next ∷ s.running;
      })
  exits :
      (s : System) (n : ℕ)
      → s.looping ≡ suc n
      → s.manager.queue ≡ []
      → Step s (record s {
        manager = record (s.manager) { active_workers = s.manager.active_workers - 1 };
        looping = n;
      })
  finishes :
      (s : System) (before : List NamedJob) (j : NamedJob) (after : List NamedJob)
      → s.running ≡ before ++ j ∷ after
      → Step s (record s {
        manager = forget j s.manager;
        looping = s.looping + 1;
        running = before ++ after;
      })
  panics :
      (s : System) (before : List NamedJob) (j : NamedJob) (after : List NamedJob)
      → s.running ≡ before ++ j ∷ after
      → Step s (record s { running = before ++ after; crashed = j ∷ s.crashed })

pub data Reach (s : System) : System → Type 0 where
  here : Reach s s
  next : {t u : System} → Reach s t → Step t u → Reach s u

-- The manager that the package starts with, and no worker.
unfoldable pub start : ℕ → System
start max = record {
  manager = record { max_concurrent_jobs = max; active_workers = 0; queue = []; names = [] };
  looping = 0;
  running = [];
  crashed = [];
}
