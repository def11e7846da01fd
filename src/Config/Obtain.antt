-- ===== src/Config/Obtain.antt =====
-- config.go: obtainCert and reusePrivateKey.
use certmagic.Prelude.{
  ℕ, Bool, true, false, Option, none, some, List, [], ◌∷◌, ◌++◌, if◌then◌else◌, Str, codes, str_eq,
  Result, ok, err,
}
use certmagic.Async.Retry.{Outcome, Progress, returned, pending}
use certmagic.Async.Retry.Attempts.{Try, retry}
use certmagic.Storage.Backend.{Storage, not_exist, read}
use certmagic.Storage.Keys.{site_private_key}
use certmagic.Storage.Locks.{Locks, acquire_lock, release_lock}
use certmagic.Config.Csr.{Csr, CsrError, Naming, generate_csr, names_from_csr}
use certmagic.Config.Resources.{
  CertificateResource, Encoding, save_cert_resource, storage_has_cert_resources_any_issuer,
  lock_key, cert_issue_lock_op,
}
use certmagic.Config.Issuing.{
  Failure, AttemptError, aborted, not_issued, key_unreadable, key_undecodable, key_not_generated,
  nil_issuer, no_csr, not_saved, outcome_of, JobError, no_issuers, not_locked, storage_check_failed,
  attempt_failed, gave_up, still_waiting, IssuedCertificate, Issuer, Config, keys_of_issuers,
  zerossl_issuer_key, check_storage,
}

-- What the lock of the storage answers, and its number.
pub record LockAnswers : Type 0 where
  pub storage : ℕ
  pub locked : Bool
  pub unlocked : Bool

-- The error that the loop over the issuers ends with; without any, it has no issuer to use.
unfoldable pub all_failed : Option Failure → AttemptError
all_failed none = nil_issuer
all_failed (some e) = not_issued e

-- How a round of the loop over the issuers ends.
pub data Tried : Type 0 where
  passed_over : Failure → Tried
  without_csr : CsrError → Tried
  obtained : IssuedCertificate → Tried

unfoldable pub returned_error : Progress → Option JobError
returned_error (returned none) = none
returned_error (returned (some e)) = some (gave_up e)
returned_error pending = some still_waiting

unfoldable pub failed_attempt : Option AttemptError → Option JobError
failed_attempt none = none
failed_attempt (some e) = some (attempt_failed e)

module _ (st : Storage) (enc : Encoding) (n : Naming) (cfg : Config st.State) where
  open st use {State}

  -- The loop of reusePrivateKey; the issuers before have no key.
  unfoldable pub find_key :
      Str
      → List (Issuer State)
      → List (Issuer State)
      → State
      → Result AttemptError (Option Str × List (Issuer State))
  unfolding read
  find_key domain before [] s = ok (none, before)
  find_key domain before (issuer ∷ rest) s =
      elim (read st s (site_private_key issuer.issuer_key domain)) [
        | err not_exist ↦ find_key domain (before ++ issuer ∷ []) rest s
        | err e ↦ err (key_unreadable e)
        | ok pem ↦
            if cfg.decodes_key pem
            then ok (some pem, issuer ∷ (before ++ rest))
            else err key_undecodable
      ]

  unfoldable pub reuse_private_key :
      Str → State → Result AttemptError (Option Str × List (Issuer State))
  unfolding find_key
  reuse_private_key domain s = find_key domain [] cfg.issuers s

  -- The key that is there, or a new one.
  unfoldable pub key_or_new : ℕ → Option Str → Result AttemptError Str
  key_or_new now (some pem) = ok pem
  key_or_new now none = elim (cfg.generate_key now) [
    | err e ↦ err (key_not_generated e)
    | ok pem ↦ ok pem
  ]

  -- The request for an issuer: ZeroSSL wants a common name.
  unfoldable pub csr_for : Issuer State → Str → Str → Csr → Result CsrError Csr
  unfolding generate_csr
  csr_for issuer key name csr =
      if str_eq issuer.issuer_key zerossl_issuer_key
      then generate_csr n cfg.must_staple key (name ∷ []) true
      else ok csr

  -- One round of the loop over the issuers.
  unfoldable pub try_issuer : ℕ → Bool → Str → Str → Csr → Issuer State → State → State × Tried
  unfolding csr_for
  try_issuer now interactive key name csr issuer s =
      elim (issuer.pre_check now (name ∷ []) interactive) [
        | some e ↦ (s, passed_over e)
        | none ↦ elim (csr_for issuer key name csr) [
          | err e ↦ (s, without_csr e)
          | ok use_csr ↦
              let (s', answer) = issuer.issue now none use_csr s in
              (s', elim answer [ ok issued ↦ obtained issued | err e ↦ passed_over e ])
        ]
      ]

  -- The loop over the issuers, with the last error.
  unfoldable pub try_issuers :
      ℕ
      → Bool
      → Str
      → Str
      → Csr
      → Option Failure
      → List (Issuer State)
      → State
      → State × Result AttemptError (Issuer State × IssuedCertificate)
  unfolding try_issuer all_failed
  try_issuers now interactive key name csr last [] s = (s, err (all_failed last))
  try_issuers now interactive key name csr last (issuer ∷ issuers) s =
      let (s', tried) = try_issuer now interactive key name csr issuer s in
      elim tried [
        | passed_over e ↦ try_issuers now interactive key name csr (some e) issuers s'
        | without_csr e ↦ (s', err (no_csr e))
        | obtained issued ↦ (s', ok (issuer, issued))
      ]

  unfoldable pub resource_of : Csr → Str → Issuer State → IssuedCertificate → CertificateResource
  unfolding names_from_csr
  resource_of csr key issuer issued = record {
    sans = names_from_csr csr;
    certificate_pem = issued.certificate;
    private_key_pem = key;
    issuer_data = issued.metadata;
    issuer_key = issuer.issuer_key;
  }

  -- What is issued is saved.
  unfoldable pub save_issued :
      Csr
      → Str
      → State × Result AttemptError (Issuer State × IssuedCertificate)
      → State × Option AttemptError
  unfolding resource_of save_cert_resource
  save_issued csr key (s, err e) = (s, some e)
  save_issued csr key (s, ok (issuer, issued)) =
      let (s', fault) =
        save_cert_resource st enc issuer.issuer_key (resource_of csr key issuer issued) s in
      (s', elim fault [ none ↦ none | some e ↦ some (not_saved e) ])

  -- With the key and the issuers, in the order in which they are tried.
  unfoldable pub obtain_with :
      ℕ → Bool → Str → Option Str × List (Issuer State) → State → State × Option AttemptError
  unfolding key_or_new save_issued try_issuers generate_csr
  obtain_with now interactive name (reused, issuers) s = elim (key_or_new now reused) [
    | err e ↦ (s, some e)
    | ok key ↦ elim (generate_csr n cfg.must_staple key (name ∷ []) false) [
      | err e ↦ (s, some (no_csr e))
      | ok csr ↦ save_issued csr key (
          try_issuers now interactive key name csr none
            (if cfg.use_first_random_issuer then cfg.shuffle now issuers else issuers) s)
    ]
  ]

  -- The function f of obtainCert.
  unfoldable pub obtain_attempt : Str → Bool → ℕ → State → State × Option AttemptError
  unfolding storage_has_cert_resources_any_issuer obtain_with reuse_private_key
  obtain_attempt name interactive now s =
      if storage_has_cert_resources_any_issuer st enc (keys_of_issuers cfg.issuers) name s
      then (s, none)
      else elim (cfg.on_event now (codes "cert_obtaining")) [
        | some e ↦ (s, some (aborted e))
        | none ↦
            elim (if cfg.reuse_private_keys
              then reuse_private_key name s
              else ok (none, cfg.issuers)) [
                | err e ↦ (s, some e)
                | ok chosen ↦ obtain_with now interactive name chosen s
              ]
      ]

  -- An attempt as doWithRetry sees it.
  unfoldable pub retried : Str → ℕ → State → State × Outcome
  unfolding obtain_attempt outcome_of
  retried name now s =
      let (s', fault) = obtain_attempt name false now s in (s', outcome_of cfg.load_failure fault)

  -- Once, or again and again in the background.
  unfoldable pub obtain_locked : Str → Bool → ℕ → List (Try State) → State → State × Option JobError
  unfolding obtain_attempt retried retry returned_error failed_attempt
  obtain_locked name interactive now tries s =
      if interactive
      then (let (s', fault) = obtain_attempt name true now s in (s', failed_attempt fault))
      else (let (s', progress) = retry (retried name) tries s in (s', returned_error progress))

  -- With the test of the storage, under the lock of the name.
  unfoldable pub obtain_checked :
      LockAnswers
      → Str
      → Bool
      → ℕ
      → List (Try State)
      → State × Locks
      → (State × Locks) × Option JobError
  unfolding obtain_locked check_storage acquire_lock release_lock
  obtain_checked lock name interactive now tries (s, locks) =
      let (checked, fault) = check_storage st cfg s in
      let key = lock_key cert_issue_lock_op name in
      let (held, got) = acquire_lock lock.locked lock.storage key locks in
      let (s', failure) = obtain_locked name interactive now tries checked in
      let (freed, good) = release_lock lock.unlocked key held in
      elim fault [
        | some e ↦ ((checked, locks), some (storage_check_failed e))
        | none ↦ if got then ((s', freed), failure) else ((checked, held), some not_locked)
      ]

  -- When there are issuers.
  unfoldable pub obtain_missing :
      LockAnswers
      → Str
      → Bool
      → ℕ
      → List (Try State)
      → State × Locks
      → (State × Locks) × Option JobError
  unfolding obtain_checked storage_has_cert_resources_any_issuer
  obtain_missing lock name interactive now tries (s, locks) =
      if storage_has_cert_resources_any_issuer st enc (keys_of_issuers cfg.issuers) name s
      then ((s, locks), none)
      else obtain_checked lock name interactive now tries (s, locks)

  unfoldable pub obtain_cert :
      LockAnswers
      → Str
      → Bool
      → ℕ
      → List (Try State)
      → State × Locks
      → (State × Locks) × Option JobError
  unfolding obtain_missing
  obtain_cert lock given_name interactive now tries state = elim cfg.issuers [
    | [] ↦ (state, some no_issuers)
    | _ ∷ _ ↦ obtain_missing lock (cfg.subject_transformer given_name) interactive now tries state
  ]
