-- ===== src/Config/Repeated.antt =====
-- config.go: the lock of obtainCert, obtaining once more, and the test of the storage.
use certmagic.Prelude.{
  ℕ, ◌≡◌, inl, inr, refl, ap, sym, ◌∙◌, subst, Bool, true, false, Bool-cases, Option-cases, none,
  List, [], ◌∷◌, Among, Str, ok, lookup, insert, lookup-insert, lookup-delete, str_eq_refl,
  str_eq_iff, ◌≢◌, arith,
}
use certmagic.Async.Retry.Attempts.{Try}
use certmagic.Storage.Backend.{Storage, read, exists}
use certmagic.Storage.Keys.{site_cert, site_private_key, site_meta}
use certmagic.Storage.Locks.{Locks, acquire_lock, release_lock}
use certmagic.Config.Csr.{Csr, Naming, generate_csr, names_from_csr, names_key}
use certmagic.Config.Resources.{
  Encoding, CertificateResource, storage_has_cert_resources_any_issuer, storage_has_cert_resources,
  lock_key, cert_issue_lock_op,
}
use certmagic.Config.Issuing.{Issuer, Config, keys_of_issuers, check_storage, test_loaded}
use certmagic.Config.Obtain.{LockAnswers, obtain_checked, obtain_cert}
use certmagic.Config.Stored.{Holds}
use certmagic.Config.Jobs.{IsServed, obtain_cert-cases}

module _ (st : Storage) (enc : Encoding) (n : Naming) (cfg : Config st.State) where
  open st use {State, load, broken, store, delete, load-store}

  freed_key :
      (lock : LockAnswers) (key k : Str) (locks : Locks)
      → lookup key locks ≡ none
      → lock.unlocked ≡ true
      → lookup k
          (release_lock lock.unlocked key (acquire_lock lock.locked lock.storage key locks).0).0
        ≡ lookup k locks
  unfolding acquire_lock release_lock
  freed_key lock key k locks free works = ground (
    arith,
    works,
    free,
    lookup-delete k key locks,
    lookup-insert k key lock.storage locks,
    lookup-delete k key (insert key lock.storage locks),
    str_eq_iff key k,
  )

  checked_locks :
      (lock : LockAnswers) (name : Str) (interactive : Bool) (now : ℕ) (tries : List (Try State))
      (s : State) (locks : Locks) (k : Str)
      → lookup (lock_key cert_issue_lock_op name) locks ≡ none
      → lock.unlocked ≡ true
      → lookup k (obtain_checked st enc n cfg lock name interactive now tries (s, locks)).0.1
        ≡ lookup k locks
  unfolding obtain_checked acquire_lock release_lock
  checked_locks lock name interactive now tries s locks k free works =
      elim (Option-cases (check_storage st cfg s).1) [
        | inr (e, bad) ↦ rw (obtain_checked, bad) refl
        | inl fine ↦ elim (Bool-cases lock.locked) [
          | inr failed ↦ rw (obtain_checked, fine, failed) refl
          | inl locked ↦
              rw (obtain_checked, fine, locked)
                (rw locked at
                  (freed_key lock (lock_key cert_issue_lock_op name) k locks free works))
        ]
      ]

  has_any-Among :
      (i : Issuer State) (issuers : List (Issuer State)) (name : Str) (s : State)
      → Among i issuers
      → storage_has_cert_resources st enc i.issuer_key name s ≡ true
      → storage_has_cert_resources_any_issuer st enc (keys_of_issuers issuers) name s ≡ true
  unfolding storage_has_cert_resources_any_issuer keys_of_issuers
  has_any-Among i [] name s a h = absurd a
  has_any-Among i (j ∷ issuers) name s (inl same) h =
      simp (storage_has_cert_resources_any_issuer, sym (ap (λ x. x.issuer_key) same), h) refl
  has_any-Among i (j ∷ issuers) name s (inr later) h =
      ground (arith, has_any-Among i issuers name s later h)

  Holds-has :
      (issuer_key name meta : Str) (res : CertificateResource) (s : State)
      → Holds st enc issuer_key name res meta s
      → ((k : Str) → broken s k ≡ false)
      → storage_has_cert_resources st enc issuer_key name s ≡ true
  unfolding storage_has_cert_resources exists
  Holds-has issuer_key name meta res s held whole =
      rw
        (
          storage_has_cert_resources,
          exists,
          whole (site_cert issuer_key name),
          held.cert_held,
          whole (site_private_key issuer_key name),
          held.key_held,
          whole (site_meta issuer_key name),
          held.meta_held,
        )
        refl

  IsServed-has :
      (name : Str) (s : State)
      → ((key : Str) (csr : Csr)
          → generate_csr n cfg.must_staple key (name ∷ []) false ≡ ok csr
          → names_key (names_from_csr csr) ≡ name)
      → ((k : Str) → broken s k ≡ false)
      → IsServed st enc n cfg name s
      → storage_has_cert_resources_any_issuer st enc (keys_of_issuers cfg.issuers) name s ≡ true
  IsServed-has name s canonical whole (inl there) = there
  IsServed-has name s canonical whole (inr o) =
      has_any-Among o.issuer cfg.issuers name s o.configured (
        subst (λ x. storage_has_cert_resources st enc o.issuer.issuer_key x s ≡ true)
          (canonical o.key o.csr o.requested)
          (Holds-has o.issuer.issuer_key _ o.meta _ s o.held whole))

  -- When a name is the key of the names that requests for it carry, and nothing in the storage is
  -- unreadable, then after obtaining has served the name, obtaining it once more returns no error
  -- and changes neither the storage nor the locks.
  pub obtain_cert-again :
      (lock : LockAnswers) (given_name : Str) (interactive : Bool) (now : ℕ)
      (tries : List (Try State)) (s : State) (locks : Locks)
      → ((key : Str) (csr : Csr)
          → generate_csr n cfg.must_staple key (cfg.subject_transformer given_name ∷ []) false
            ≡ ok csr
          → names_key (names_from_csr csr) ≡ cfg.subject_transformer given_name)
      → ((k : Str) → broken s k ≡ false)
      → IsServed st enc n cfg (cfg.subject_transformer given_name) s
      → cfg.issuers ≢ []
      → obtain_cert st enc n cfg lock given_name interactive now tries (s, locks)
        ≡ ((s, locks), none)
  obtain_cert-again lock given_name interactive now tries s locks canonical whole served issuers =
      let name = cfg.subject_transformer given_name in
      elim (obtain_cert-cases st enc n cfg lock given_name interactive now tries s locks) [
        | inl (nobody, e) ↦ absurd (issuers nobody)
        | inr (inl (there, e)) ↦ e
        | inr (inr (missing, e)) ↦
            let q = sym missing ∙ IsServed-has name s canonical whole served in cc
      ]

  -- However obtaining ends, every lock that this process holds is as before, if the lock of the name
  -- was not held and unlocking it works.
  pub obtain_cert-locks :
      (lock : LockAnswers) (given_name : Str) (interactive : Bool) (now : ℕ)
      (tries : List (Try State)) (s : State) (locks : Locks) (k : Str)
      → lookup (lock_key cert_issue_lock_op (cfg.subject_transformer given_name)) locks ≡ none
      → lock.unlocked ≡ true
      → lookup k (obtain_cert st enc n cfg lock given_name interactive now tries (s, locks)).0.1
        ≡ lookup k locks
  obtain_cert-locks lock given_name interactive now tries s locks k free works =
      let name = cfg.subject_transformer given_name in
      elim (obtain_cert-cases st enc n cfg lock given_name interactive now tries s locks) [
        | inl (nobody, e) ↦ ap (λ x. lookup k x.0.1) e
        | inr (inl (there, e)) ↦ ap (λ x. lookup k x.0.1) e
        | inr (inr (missing, e)) ↦
            ap (λ x. lookup k x.0.1) e
            ∙ checked_locks lock name interactive now tries s locks k free works
      ]

module _ (st : Storage) (cfg : Config st.State) where
  open st use {State, broken, store, load-store}

  -- The test of the storage finds no fault when storing works and the test's key can be read,
  -- whatever deleting the key answers.
  pub check_storage-deleted :
      (s : State)
      → (store cfg.test_key cfg.test_contents s).1 ≡ true
      → broken (store cfg.test_key cfg.test_contents s).0 cfg.test_key ≡ false
      → (check_storage st cfg s).1 ≡ none
  unfolding check_storage test_loaded read
  check_storage-deleted s good whole =
      let held = load-store cfg.test_key cfg.test_contents s good cfg.test_key in
      let fine : test_loaded st cfg (store cfg.test_key cfg.test_contents s).0 ≡ none =
        (rw
          (test_loaded, read, whole, held, str_eq_refl cfg.test_key, str_eq_refl cfg.test_contents)
          refl) in
      elim (Bool-cases cfg.disable_storage_check) [
        | inl off ↦ simp (check_storage, off) refl
        | inr on ↦ simp (check_storage, on, good, fine) refl
      ]
