-- ===== src/Maintenance/Named.antt =====
-- maintain.go: the names of the jobs after RenewManagedCertificates.
use certmagic.Prelude.{◌≡◌, ◌⊎◌, true, List, ◌∷◌, Among, Str, elem}
use certmagic.Certificate.{Certificate, Ratios}
use certmagic.Storage.Backend.{Storage}
use certmagic.Async.Jobs.{NamedJob, JobManager}
use certmagic.Config.Resources.{Encoding}
use certmagic.Maintenance.{Surroundings}
use certmagic.Maintenance.Renewal.{Effects, renewal_name}
use certmagic.Maintenance.Queued.{Queued}

-- A name that was known before, or of a job in the queue.
abbrev pub IsWaiting : JobManager → JobManager → Str → Type 0
IsWaiting before jm n =
    (elem n before.names ≡ true) ⊎ ((j : NamedJob) × Among j jm.queue × (j.name ≡ n))

-- Known names are those that were known before, and those of jobs in the queue.
abbrev AllWaiting : JobManager → JobManager → Type 0
AllWaiting before jm = (n : Str) → elem n jm.names ≡ true → IsWaiting before jm n

-- The job manager after more jobs were submitted.
record Submits (before jm jm' : JobManager) : Type 0 where
  all : AllWaiting before jm'
  keeps : (n : Str) → IsWaiting before jm n → IsWaiting before jm' n

module _ (st : Storage) (enc : Encoding) (f : Ratios) (env : Surroundings f st.State)
    (eff : Effects f st.State) where
  open st use {State}

  -- The name of the job for a certificate was known before, or a job with that name is in the queue.
  pub HasJob : JobManager → Certificate → JobManager → Type 0
  HasJob before cert jm =
      (name : Str) × (rest : List Str) × (cert.names ≡ name ∷ rest)
      × IsWaiting before jm (renewal_name st enc f env eff name)
