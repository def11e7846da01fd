-- ===== src/Config/Issuing.antt =====
-- config.go: what obtaining and renewing a certificate share. What they call outside this file is a
-- record: the issuers, the key source, the event handler, and the settings.
use certmagic.Prelude.{
  ℕ, Bool, Option, none, some, List, [], ◌∷◌, if◌then◌else◌, Str, codes, str_eq, Result, ok, err,
}
use certmagic.Async.Retry.{Outcome, success, canceled, no_retry, failed, RetryError}
use certmagic.Certificate.{Leaf}
use certmagic.Storage.Backend.{Storage, LoadError, read}
use certmagic.Config.Csr.{Csr, CsrError}
use certmagic.Config.Resources.{SaveError}

-- An error of an issuer, an event handler, the key source or the storage: it may wrap context.Canceled or ErrNoRetry.
pub data Failure : Type 0 where
  is_canceled : Failure
  is_final is_other : ℕ → Failure

pub data AttemptError : Type 0 where
  aborted not_issued : Failure → AttemptError
  not_loaded key_unreadable : LoadError → AttemptError
  key_not_generated : Failure → AttemptError
  key_undecodable nil_issuer panicked : AttemptError
  no_csr : CsrError → AttemptError
  not_saved : SaveError → AttemptError

-- What errors.Is and errors.As find in the error that an attempt returns.
unfoldable pub failure_outcome : Failure → Outcome
failure_outcome is_canceled = canceled
failure_outcome (is_final n) = no_retry n
failure_outcome (is_other n) = failed n

-- `load_failure` tells of an error of loading, which is returned as it is, what it wraps.
unfoldable pub outcome_of : (load_failure : LoadError → Failure) → Option AttemptError → Outcome
unfolding failure_outcome
outcome_of load_failure none = success
outcome_of load_failure (some (aborted e)) = failure_outcome e
outcome_of load_failure (some (not_issued e)) = failure_outcome e
outcome_of load_failure (some (not_loaded e)) = failure_outcome (load_failure e)
outcome_of load_failure (some (key_not_generated e)) = failure_outcome e
outcome_of load_failure (some _) = failed 0

pub data StorageFault : Type 0 where
  not_writable different : StorageFault
  not_readable : LoadError → StorageFault

pub data JobError : Type 0 where
  no_issuers not_locked : JobError
  storage_check_failed : StorageFault → JobError
  attempt_failed : AttemptError → JobError
  gave_up : RetryError → JobError
  still_waiting : JobError

-- What an issuer gives; the metadata as json.Marshal encodes it, empty if it gives an error.
pub record IssuedCertificate : Type 0 where
  pub certificate : Str
  pub metadata : Str

-- An answer may be another at each moment. An issuer without the method PreCheck has no objection.
-- `replaces` is the certificate that the context says is replaced. `ca` is the field of an
-- ACMEIssuer.
pub record Issuer (S : Type 0) : Type 0 where
  pub issuer_key : Str
  pub ca : Option Str
  pub pre_check : ℕ → List Str → (interactive : Bool) → Option Failure
  pub issue : ℕ → (replaces : Option (Option Leaf)) → Csr → S → S × Result Failure IssuedCertificate

-- A private key is told by its PEM text: `generate_key` is GenerateKey with PEMEncodePrivateKey,
-- `load_failure` is what an error of Storage.Load wraps, and `decodes_key` is whether PEMDecodePrivateKey gives no error. `test_key` and `test_contents`
-- are the random ones of checkStorage.
pub record Config (S : Type 0) : Type 0 where
  pub issuers : List (Issuer S)
  pub subject_transformer : Str → Str
  pub disable_storage_check : Bool
  pub reuse_private_keys : Bool
  pub use_first_random_issuer : Bool
  pub must_staple : Bool
  pub disable_ari : Bool
  pub on_event : ℕ → Str → Option Failure
  pub shuffle : ℕ → List (Issuer S) → List (Issuer S)
  pub generate_key : ℕ → Result Failure Str
  pub load_failure : LoadError → Failure
  pub decodes_key : Str → Bool
  pub test_key : Str
  pub test_contents : Str

module _ {S : Type 0} where
  unfoldable pub keys_of_issuers : List (Issuer S) → List Str
  keys_of_issuers [] = []
  keys_of_issuers (i ∷ is) = i.issuer_key ∷ keys_of_issuers is

abbrev pub zerossl_issuer_key : Str
zerossl_issuer_key = codes "zerossl"

module _ (st : Storage) (cfg : Config st.State) where
  open st use {State, store, delete}

  -- The test: the deferred function deletes the key, and sets a variable that is not returned.
  unfoldable pub test_loaded : State → Option StorageFault
  unfolding read
  test_loaded s = elim (read st s cfg.test_key) [
    | err e ↦ some (not_readable e)
    | ok loaded ↦ if str_eq cfg.test_contents loaded then none else some different
  ]

  unfoldable pub check_storage : State → State × Option StorageFault
  unfolding test_loaded
  check_storage s =
      let (s', good) = store cfg.test_key cfg.test_contents s in
      let fault = test_loaded s' in
      let (s'', deleted) = delete cfg.test_key s' in
      if cfg.disable_storage_check
      then (s, none)
      else if good
      then (s'', fault)
      else (s', some not_writable)
