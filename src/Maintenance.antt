-- ===== src/Maintenance.antt =====
-- maintain.go: RenewManagedCertificates, which queues what it does while it reads the cache.
pub mod Renewal
pub mod Growing
pub mod Queued
pub mod Named
use certmagic.Prelude.{
  ℕ, Bool, true, false, not, ◌&&◌, Option, none, some, List, [], ◌∷◌, ◌++◌, if◌then◌else◌, Str,
  codes, str_eq, Dict, lookup, insert, Result, ok, err,
}
use certmagic.Certificate.{RenewalInfo, Certificate, Ratios, RenewalConfig, Panic, needs_renewal}
use certmagic.Cache.{Cache, remove_certificate}
use certmagic.Storage.Backend.{Storage, LoadError}
use certmagic.Async.Jobs.{NamedJob, JobManager, submit}
use certmagic.Config.Resources.{Encoding}
use certmagic.Config.Managed.{
  MakeError, Making, reload_managed_certificate, managed_cert_in_storage_needs_renewal,
}

-- What the config of a certificate says.
pub record Managing (f : Ratios) (S : Type 0) : Type 0 where
  pub on_demand : Bool
  pub renewing : RenewalConfig f
  pub making : Making S
  pub issuers : List Str

-- The queues, and the configs by the hash of the certificate.
pub record Queues (f : Ratios) (S : Type 0) : Type 0 where
  pub configs : Dict (Managing f S)
  pub renewals : List Certificate
  pub reloads : List Certificate
  pub deletions : List Certificate
  pub aris : List Certificate

-- Panics.
pub data MaintenancePanic : Type 0 where
  no_names no_config : MaintenancePanic
  bad_window : Panic → MaintenancePanic

unfoldable pub has_hash : Str → List Certificate → Bool
has_hash h [] = false
has_hash h (c ∷ certs) = let rest = has_hash h certs in if str_eq c.hash h then true else rest

-- insert of a certList
unfoldable pub insert_cert : Certificate → List Certificate → List Certificate
unfolding has_hash
insert_cert cert certs = if has_hash cert.hash certs then certs else certs ++ cert ∷ []

-- What the storage says about a certificate that is to be renewed.
pub data Stored : Type 0 where
  renewed not_renewed unknown : Stored

unfoldable pub nothing_queued : {f : Ratios} {S : Type 0} → Queues f S
nothing_queued = record { configs = []; renewals = []; reloads = []; deletions = []; aris = [] }

-- getConfig, which gives an error, nil or a config; ARI's NeedsRefresh; the time; and what
-- rand.Int63n draws for the cached and for the stored certificate.
pub record Surroundings (f : Ratios) (S : Type 0) : Type 0 where
  pub get_config : Certificate → Option (Option (Managing f S))
  pub needs_refresh : RenewalInfo → Bool
  pub time : ℕ
  pub draw : Certificate → ℕ
  pub stored_draw : Certificate → ℕ

module _ (st : Storage) (enc : Encoding) (f : Ratios) (env : Surroundings f st.State) where
  open st use {State}

  unfoldable pub stored_of :
      Option (Result LoadError (Result Panic Bool)) → Result MaintenancePanic Stored
  stored_of none = err no_names
  stored_of (some (err e)) = ok unknown
  stored_of (some (ok (err p))) = err (bad_window p)
  stored_of (some (ok (ok true))) = ok not_renewed
  stored_of (some (ok (ok false))) = ok renewed

  unfoldable pub look_up_stored :
      Managing f State → Certificate → State → Result MaintenancePanic Stored
  unfolding stored_of managed_cert_in_storage_needs_renewal
  look_up_stored cfg cert s = stored_of (
      managed_cert_in_storage_needs_renewal st enc cfg.making cfg.issuers {f = f} cfg.renewing
        env.time (env.stored_draw cert) cert s)

  unfoldable pub queue_due :
      Managing f State → Certificate → Stored → Queues f State → Queues f State
  unfolding insert_cert
  queue_due cfg cert renewed q = record q {
    configs = insert cert.hash cfg q.configs;
    reloads = q.reloads ++ cert ∷ [];
  }
  queue_due cfg cert not_renewed q = record q {
    configs = insert cert.hash cfg q.configs;
    renewals = insert_cert cert q.renewals;
  }
  queue_due cfg cert unknown q = record q {
    configs = insert cert.hash cfg q.configs;
    renewals = insert_cert cert q.renewals;
  }

  unfoldable pub queue_ari : Managing f State → Certificate → Queues f State → Queues f State
  queue_ari cfg cert q =
      if not (cfg.renewing.disable_ari) && env.needs_refresh cert.ari
      then record q { configs = insert cert.hash cfg q.configs; aris = q.aris ++ cert ∷ [] }
      else q

  -- With whether the certificate needs renewal.
  unfoldable pub queue_managed :
      Managing f State
      → Certificate
      → State
      → Queues f State
      → Result Panic Bool
      → Result MaintenancePanic (Queues f State)
  unfolding queue_due look_up_stored
  queue_managed cfg cert s q (err p) = err (bad_window p)
  queue_managed cfg cert s q (ok false) = ok q
  queue_managed cfg cert s q (ok true) = elim (look_up_stored cfg cert s) [
    | err p ↦ err p
    | ok stored ↦ ok (queue_due cfg cert stored q)
  ]

  unfoldable pub with_config :
      Certificate
      → State
      → Queues f State
      → Option (Option (Managing f State))
      → Result MaintenancePanic (Queues f State)
  unfolding queue_managed queue_ari
  with_config cert s q none = ok q
  with_config cert s q (some none) = ok q
  with_config cert s q (some (some cfg)) =
      if cfg.on_demand
      then ok q
      else queue_managed cfg cert s (queue_ari cfg cert q)
          (needs_renewal f cfg.renewing env.time (env.draw cert) cert)

  unfoldable pub visit_named :
      Certificate → State → Queues f State → List Str → Result MaintenancePanic (Queues f State)
  unfolding with_config
  visit_named cert s q [] = ok (record q { deletions = q.deletions ++ cert ∷ [] })
  visit_named cert s q (_ ∷ _) = with_config cert s q (env.get_config cert)

  -- One certificate of the cache.
  unfoldable pub visit :
      Certificate → State → Queues f State → Result MaintenancePanic (Queues f State)
  unfolding visit_named
  visit cert s q = if not cert.managed then ok q else visit_named cert s q cert.names

  -- The certificates of the cache, in any order.
  unfoldable pub scan :
      Dict Certificate → State → Queues f State → Result MaintenancePanic (Queues f State)
  unfolding visit
  scan [] s q = ok q
  scan ((h, cert) ∷ certs) s q = elim (visit cert s q) [ err p ↦ err p | ok q' ↦ scan certs s q' ]
