-- ===== src/Maintenance/Renewal.antt =====
-- maintain.go: what RenewManagedCertificates does with its queues, and the job that renews.
use certmagic.Prelude.{
  ℕ, Bool, true, false, none, some, List, [], ◌∷◌, ◌++◌, if◌then◌else◌, Str, codes, Dict, lookup,
  Result, ok, err,
}
use certmagic.Certificate.{Certificate, Ratios, Panic, needs_renewal}
use certmagic.Cache.{Cache, remove_certificate}
use certmagic.Storage.Backend.{Storage}
use certmagic.Async.Jobs.{JobManager, submit}
use certmagic.Config.Resources.{Encoding}
use certmagic.Config.Managed.{reload_managed_certificate}
use certmagic.Maintenance.{
  Managing, Queues, MaintenancePanic, no_names, no_config, bad_window, insert_cert, nothing_queued,
  Surroundings, scan,
}

-- The storage, the cache and the job manager.
pub record Process (S : Type 0) : Type 0 where
  pub storage : S
  pub cache : Cache
  pub jobs : JobManager

-- updateARI, with the updated certificate and whether its window has changed; what caching a
-- certificate draws; the job for a certificate; and RenewCertAsync, with whether there was no error.
pub record Effects (f : Ratios) (S : Type 0) : Type 0 where
  pub update_ari : Managing f S → Certificate → S × Cache → (S × Cache) × (Certificate × Bool)
  pub caching_draw : Certificate → ℕ
  pub job_of : Certificate → ℕ
  pub renew : Str → S → S × Bool

-- How a job of a renewal ends.
pub data JobEnd : Type 0 where
  succeeded not_renewed not_reloaded : JobEnd

module _ (st : Storage) (enc : Encoding) (f : Ratios) (env : Surroundings f st.State)
    (eff : Effects f st.State) where
  open st use {State}

  unfoldable pub requeue :
      Certificate
      → List Certificate
      → Result Panic Bool
      → Result MaintenancePanic (List Certificate)
  unfolding insert_cert
  requeue cert renewals (err p) = err (bad_window p)
  requeue cert renewals (ok true) = ok (insert_cert cert renewals)
  requeue cert renewals (ok false) = ok renewals

  -- The renewal queue after the renewal information of a certificate was updated.
  unfoldable pub after_ari :
      Managing f State
      → Certificate × Bool
      → List Certificate
      → Result MaintenancePanic (List Certificate)
  unfolding requeue
  after_ari cfg (cert, false) renewals = ok renewals
  after_ari cfg (cert, true) renewals =
      requeue cert renewals (needs_renewal f cfg.renewing env.time (env.draw cert) cert)

  unfoldable pub update_aris :
      Dict (Managing f State)
      → List Certificate
      → Process State
      → List Certificate
      → Result MaintenancePanic (Process State × List Certificate)
  unfolding after_ari
  update_aris configs [] w renewals = ok (w, renewals)
  update_aris configs (cert ∷ certs) w renewals = elim (lookup cert.hash configs) [
    | none ↦ err no_config
    | some cfg ↦
        let ((s, c), updated) = eff.update_ari cfg cert (w.storage, w.cache) in
        elim (after_ari cfg updated renewals) [
          | err p ↦ err p
          | ok renewals' ↦ update_aris configs certs (record w { storage = s; cache = c }) renewals'
        ]
  ]

  unfoldable pub reload_one :
      Managing f State → Certificate → Process State → Result MaintenancePanic (Process State)
  unfolding reload_managed_certificate
  reload_one cfg old w =
      elim (reload_managed_certificate st enc cfg.making cfg.issuers (eff.caching_draw old) old
        (w.storage, w.cache)) [
          | none ↦ err no_names
          | some ((s, c), made) ↦ ok (record w { storage = s; cache = c })
        ]

  unfoldable pub reload_each :
      Dict (Managing f State)
      → List Certificate
      → Process State
      → Result MaintenancePanic (Process State)
  unfolding reload_one
  reload_each configs [] w = ok w
  reload_each configs (cert ∷ certs) w = elim (lookup cert.hash configs) [
    | none ↦ err no_config
    | some cfg ↦ elim (reload_one cfg cert w) [
      | err p ↦ err p
      | ok w' ↦ reload_each configs certs w'
    ]
  ]

  abbrev pub renewal_name : Str → Str
  renewal_name name = codes "renew_" ++ name

  unfoldable pub queue_renewal_task : Certificate → JobManager → Result MaintenancePanic JobManager
  unfolding submit
  queue_renewal_task old jm = elim (old.names) [
    | [] ↦ err no_names
    | name ∷ _ ↦ ok (submit (record { name = renewal_name name; job = eff.job_of old }) jm).0
  ]

  unfoldable pub queue_renewal_tasks :
      List Certificate → JobManager → Result MaintenancePanic JobManager
  unfolding queue_renewal_task
  queue_renewal_tasks [] jm = ok jm
  queue_renewal_tasks (cert ∷ certs) jm = elim (queue_renewal_task cert jm) [
    | err p ↦ err p
    | ok jm' ↦ queue_renewal_tasks certs jm'
  ]

  unfoldable pub remove_each : List Certificate → Cache → Cache
  unfolding remove_certificate
  remove_each [] c = c
  remove_each (cert ∷ certs) c = remove_each certs (remove_certificate cert c)

  unfoldable pub finish :
      List Certificate
      → Process State
      → Result MaintenancePanic JobManager
      → Result MaintenancePanic (Process State)
  unfolding remove_each
  finish deletions w (err p) = err p
  finish deletions w (ok jm) = ok (record w { cache = remove_each deletions w.cache; jobs = jm })

  -- What follows the scan.
  unfoldable pub work_off : Queues f State → Process State → Result MaintenancePanic (Process State)
  unfolding update_aris reload_each queue_renewal_tasks finish
  work_off q w = elim (update_aris q.configs q.aris w q.renewals) [
    | err p ↦ err p
    | ok (w', renewals) ↦ elim (reload_each q.configs q.reloads w') [
      | err p ↦ err p
      | ok w'' ↦ finish q.deletions w'' (queue_renewal_tasks renewals w''.jobs)
    ]
  ]

  unfoldable pub renew_managed_certificates :
      Process State → Result MaintenancePanic (Process State)
  unfolding scan work_off nothing_queued
  renew_managed_certificates w = elim (scan st enc f env w.cache.certs w.storage nothing_queued) [
    | err p ↦ err p
    | ok q ↦ work_off q w
  ]

  -- The job that is queued for a certificate.
  unfoldable pub reload_renewed :
      Managing f State
      → Certificate
      → Process State
      → Result MaintenancePanic (Process State × JobEnd)
  unfolding reload_managed_certificate
  reload_renewed cfg old w =
      elim (reload_managed_certificate st enc cfg.making cfg.issuers (eff.caching_draw old) old
        (w.storage, w.cache)) [
          | none ↦ err no_names
          | some ((s, c), made) ↦ ok (
            record w { storage = s; cache = c },
            elim made [ err e ↦ not_reloaded | ok cert ↦ succeeded ],
          )
        ]

  unfoldable pub renewal_job :
      Managing f State
      → Certificate
      → Str
      → Process State
      → Result MaintenancePanic (Process State × JobEnd)
  unfolding reload_renewed remove_certificate
  renewal_job cfg old name w =
      let (s, good) = eff.renew name w.storage in
      if good
      then reload_renewed cfg old (record w { storage = s })
      else if cfg.on_demand
      then ok (record w { storage = s; cache = remove_certificate old w.cache }, not_renewed)
      else ok (record w { storage = s }, not_renewed)
