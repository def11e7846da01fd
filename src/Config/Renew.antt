-- ===== src/Config/Renew.antt =====
-- config.go: renewCert and managedCertNeedsRenewal; certificates.go: getACMEData.
use certmagic.Prelude.{
  ℕ, Bool, true, false, not, ◌&&◌, Option, none, some, List, [], ◌∷◌, if◌then◌else◌, Str, codes,
  str_eq, Result, ok, err,
}
use certmagic.Async.Retry.{Outcome}
use certmagic.Async.Retry.Attempts.{Try, retry}
use certmagic.Certificate.{
  Leaf, RenewalInfo, no_ari, Ratios, RenewalConfig, Panic, cert_needs_renewal,
}
use certmagic.Storage.Backend.{Storage}
use certmagic.Storage.Locks.{Locks, acquire_lock, release_lock}
use certmagic.Config.Csr.{Csr, Naming, generate_csr}
use certmagic.Config.Resources.{
  CertificateResource, Encoding, first_leaf, parse_certs_from_pem_bundle,
  load_cert_resource_any_issuer, lock_key, cert_issue_lock_op,
}
use certmagic.Config.Issuing.{
  Failure, AttemptError, aborted, not_loaded, key_undecodable, no_csr, panicked, outcome_of,
  JobError, no_issuers, not_locked, storage_check_failed, IssuedCertificate, Issuer, Config,
  keys_of_issuers, check_storage,
}
use certmagic.Config.Obtain.{
  LockAnswers, Tried, passed_over, without_csr, obtained, all_failed, csr_for, save_issued,
  key_or_new, failed_attempt, returned_error,
}

-- What json.Unmarshal reads of acme.Certificate: the CA, empty if it is missing, and the renewal
-- information, unless it gives an error.
pub record AcmeData : Type 0 where
  pub ca : Str
  pub renewal_info : Option RenewalInfo

unfoldable pub get_acme_data : (Str → Option AcmeData) → CertificateResource → Option AcmeData
get_acme_data unmarshal res =
    if str_eq res.issuer_data []
    then some (record { ca = []; renewal_info = none })
    else unmarshal res.issuer_data

-- getARI, where an error and no information come to the same.
unfoldable pub get_ari : (Str → Option AcmeData) → CertificateResource → RenewalInfo
unfolding get_acme_data
get_ari unmarshal res = elim (get_acme_data unmarshal res) [
  | none ↦ no_ari
  | some data' ↦ elim (data'.renewal_info) [ none ↦ no_ari | some ari ↦ ari ]
]

module _ (f : Ratios) (renewal : RenewalConfig f) (unmarshal : Str → Option AcmeData) where
  -- The leaf, if it can be parsed, and whether it is to be renewed, at a time and with what
  -- rand.Int63n draws.
  unfoldable pub managed_cert_needs_renewal :
      Encoding → (time draw : ℕ) → CertificateResource → Option Leaf × Result Panic Bool
  unfolding cert_needs_renewal parse_certs_from_pem_bundle first_leaf get_ari
  managed_cert_needs_renewal enc time draw res =
      elim (first_leaf (parse_certs_from_pem_bundle enc res.certificate_pem)) [
        | none ↦ (none, ok true)
        | some leaf ↦ (
          some leaf,
          cert_needs_renewal f renewal time draw (some leaf)
              (if renewal.disable_ari then no_ari else get_ari unmarshal res),
        )
      ]

module _ (st : Storage) (enc : Encoding) (n : Naming) (cfg : Config st.State) where
  open st use {State}

  module _ (f : Ratios) (renewal : RenewalConfig f) (unmarshal : Str → Option AcmeData) where
    -- Whether an ACME issuer is told that the certificate is replaced: its CA issued it.
    unfoldable pub is_same_ca : CertificateResource → Issuer State → Bool
    unfolding get_acme_data
    is_same_ca res issuer = elim (get_acme_data unmarshal res) [
      | none ↦ false
      | some data' ↦ elim (issuer.ca) [
        | none ↦ false
        | some ca ↦ not (str_eq data'.ca []) && str_eq ca data'.ca
      ]
    ]

    -- The value of the context after an issuer was looked at.
    unfoldable pub now_replaces :
        CertificateResource
        → Option Leaf
        → Issuer State
        → Option (Option Leaf)
        → Option (Option Leaf)
    unfolding is_same_ca
    now_replaces res leaf issuer replaces =
        if not cfg.disable_ari && is_same_ca res issuer then some leaf else replaces

    -- One round of the loop over the issuers.
    unfoldable pub try_renewal :
        ℕ → Bool → Str → Str → Csr → Option (Option Leaf) → Issuer State → State → State × Tried
    unfolding csr_for
    try_renewal now interactive key name csr replaces issuer s =
        elim (csr_for st enc n cfg issuer key name csr) [
          | err e ↦ (s, without_csr e)
          | ok use_csr ↦ elim (issuer.pre_check now (name ∷ []) interactive) [
            | some e ↦ (s, passed_over e)
            | none ↦
                let (s', answer) = issuer.issue now replaces use_csr s in
                (s', elim answer [ ok issued ↦ obtained issued | err e ↦ passed_over e ])
          ]
        ]

    -- The value stays in the context for the issuers after. An issuer that PreCheck passes over does
    -- not set it.
    unfoldable pub replaces_after :
        ℕ
        → Bool
        → Str
        → CertificateResource
        → Option Leaf
        → Issuer State
        → Option (Option Leaf)
        → Option (Option Leaf)
    unfolding now_replaces
    replaces_after now interactive name res leaf issuer replaces =
        elim (issuer.pre_check now (name ∷ []) interactive) [
          | some e ↦ replaces
          | none ↦ now_replaces res leaf issuer replaces
        ]

    unfoldable pub try_renewals :
        ℕ
        → Bool
        → Str
        → Str
        → Csr
        → CertificateResource
        → Option Leaf
        → Option (Option Leaf)
        → Option Failure
        → List (Issuer State)
        → State
        → State × Result AttemptError (Issuer State × IssuedCertificate)
    unfolding try_renewal replaces_after all_failed
    try_renewals now interactive key name csr res leaf replaces last [] s =
        (s, err (all_failed last))
    try_renewals now interactive key name csr res leaf replaces last (issuer ∷ issuers) s =
        let replaces' = replaces_after now interactive name res leaf issuer replaces in
        let (s', tried) = try_renewal now interactive key name csr replaces' issuer s in
        elim tried [
          | passed_over e ↦
              try_renewals now interactive key name csr res leaf replaces' (some e) issuers s'
          | without_csr e ↦ (s', err (no_csr e))
          | obtained issued ↦ (s', ok (issuer, issued))
        ]

    -- The key of the certificate, or a new one.
    unfoldable pub renewal_key : ℕ → CertificateResource → Result AttemptError Str
    unfolding key_or_new
    renewal_key now res =
        if cfg.reuse_private_keys
        then (if cfg.decodes_key res.private_key_pem
            then ok res.private_key_pem
            else err key_undecodable)
        else key_or_new st enc n cfg now none

    unfoldable pub renew_with :
        ℕ → Bool → Str → CertificateResource → Option Leaf → State → State × Option AttemptError
    unfolding renewal_key try_renewals save_issued generate_csr
    renew_with now interactive name res leaf s = elim (renewal_key now res) [
      | err e ↦ (s, some e)
      | ok key ↦ elim (generate_csr n cfg.must_staple key (name ∷ []) false) [
        | err e ↦ (s, some (no_csr e))
        | ok csr ↦
            save_issued st enc n cfg csr key
              (try_renewals now interactive key name csr res leaf none none cfg.issuers s)
      ]
    ]

    -- The certificate is to be renewed, or this is forced; the event may abort it.
    unfoldable pub renew_loaded :
        ℕ
        → Bool
        → Bool
        → Str
        → CertificateResource
        → Option Leaf × Result Panic Bool
        → State
        → State × Option AttemptError
    unfolding renew_with
    renew_loaded now force interactive name res (leaf, err e) s = (s, some panicked)
    renew_loaded now force interactive name res (leaf, ok needed) s =
        if not needed && not force
        then (s, none)
        else elim (cfg.on_event now (codes "cert_obtaining")) [
          | some e ↦ (s, some (aborted e))
          | none ↦ renew_with now interactive name res leaf s
        ]

    -- The function f of renewCert; `time` and `draw` are as for the check.
    unfoldable pub renew_attempt :
        (time draw : ℕ → ℕ)
        → Str
        → (force interactive : Bool) → ℕ
        → State
        → State × Option AttemptError
    unfolding renew_loaded managed_cert_needs_renewal load_cert_resource_any_issuer
    renew_attempt time draw name force interactive now s =
        elim (load_cert_resource_any_issuer st enc (keys_of_issuers cfg.issuers) name s) [
          | err e ↦ (s, some (not_loaded e))
          | ok res ↦
              renew_loaded now force interactive name res
                (managed_cert_needs_renewal f renewal unmarshal enc (time now) (draw now) res) s
        ]

    unfoldable pub renew_retried : (time draw : ℕ → ℕ) → Str → Bool → ℕ → State → State × Outcome
    unfolding renew_attempt outcome_of
    renew_retried time draw name force now s =
        let (s', fault) = renew_attempt time draw name force false now s in
        (s', outcome_of cfg.load_failure fault)

    unfoldable pub renew_locked :
        (time draw : ℕ → ℕ)
        → Str
        → (force interactive : Bool) → ℕ
        → List (Try State)
        → State
        → State × Option JobError
    unfolding renew_attempt renew_retried retry returned_error failed_attempt
    renew_locked time draw name force interactive now tries s =
        if interactive
        then (let (s', fault) = renew_attempt time draw name force true now s in
            (s', failed_attempt fault))
        else (let (s', progress) = retry (renew_retried time draw name force) tries s in
            (s', returned_error progress))

    unfoldable pub renew_checked :
        LockAnswers
        → (time draw : ℕ → ℕ) → Str
        → (force interactive : Bool) → ℕ
        → List (Try State)
        → State × Locks
        → (State × Locks) × Option JobError
    unfolding renew_locked check_storage acquire_lock release_lock
    renew_checked lock time draw name force interactive now tries (s, locks) =
        let (checked, fault) = check_storage st cfg s in
        let key = lock_key cert_issue_lock_op name in
        let (held, got) = acquire_lock lock.locked lock.storage key locks in
        let (s', failure) = renew_locked time draw name force interactive now tries checked in
        let (freed, good) = release_lock lock.unlocked key held in
        elim fault [
          | some e ↦ ((checked, locks), some (storage_check_failed e))
          | none ↦ if got then ((s', freed), failure) else ((checked, held), some not_locked)
        ]

    unfoldable pub renew_cert :
        LockAnswers
        → (time draw : ℕ → ℕ) → Str
        → (force interactive : Bool) → ℕ
        → List (Try State)
        → State × Locks
        → (State × Locks) × Option JobError
    unfolding renew_checked
    renew_cert lock time draw given_name force interactive now tries state = elim cfg.issuers [
      | [] ↦ (state, some no_issuers)
      | _ ∷ _ ↦
          renew_checked lock time draw (cfg.subject_transformer given_name) force interactive now
            tries state
    ]
