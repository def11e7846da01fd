-- ===== src/Config/Jobs.antt =====
-- config.go: obtainCert as a whole, with its lock and its retries.
use certmagic.Prelude.{
  ℕ, ◌≡◌, ◌⊎◌, inl, inr, refl, ◌∙◌, Bool, true, false, Bool-cases, List-cases, none, some, List, [],
  Among, Str,
}
use certmagic.Async.Retry.Attempts.{Try, IsLate}
use certmagic.Storage.Backend.{Storage}
use certmagic.Storage.Locks.{Locks}
use certmagic.Config.Csr.{Naming}
use certmagic.Config.Resources.{Encoding, storage_has_cert_resources_any_issuer}
use certmagic.Config.Issuing.{Config, no_issuers, keys_of_issuers}
use certmagic.Config.Obtain.{LockAnswers, obtain_checked, obtain_missing, obtain_cert}
use certmagic.Config.Obtained.{IsObtained}

module _ (st : Storage) (enc : Encoding) (n : Naming) (cfg : Config st.State) where
  open st use {State, load, broken, store, delete}

  -- The storage has resources under the name, or those of a certificate that was issued for it.
  abbrev pub IsServed : Str → State → Type 0
  IsServed name s =
      (storage_has_cert_resources_any_issuer st enc (keys_of_issuers cfg.issuers) name s ≡ true)
      ⊎ IsObtained st enc n cfg name s

  -- What an end of the operation without an error means.
  abbrev IsEnded : Str → Bool → List (Try State) → State → Type 0
  IsEnded name interactive tries s =
      IsServed name s ⊎ ((interactive ≡ false) × ((t : Try State) × Among t tries × IsLate t))

  pub obtain_missing-cases :
      (lock : LockAnswers) (name : Str) (interactive : Bool) (now : ℕ) (tries : List (Try State))
      (s : State) (locks : Locks)
      → ((storage_has_cert_resources_any_issuer st enc (keys_of_issuers cfg.issuers) name s ≡ true)
          × (obtain_missing st enc n cfg lock name interactive now tries (s, locks)
              ≡ ((s, locks), none)))
        ⊎ ((storage_has_cert_resources_any_issuer st enc (keys_of_issuers cfg.issuers) name s
              ≡ false)
            × (obtain_missing st enc n cfg lock name interactive now tries (s, locks)
                ≡ obtain_checked st enc n cfg lock name interactive now tries (s, locks)))
  unfolding obtain_missing
  obtain_missing-cases lock name interactive now tries s locks =
      elim (Bool-cases
        (storage_has_cert_resources_any_issuer st enc (keys_of_issuers cfg.issuers) name s)) [
          | inl there ↦ inl (there, rw (obtain_missing, there) refl)
          | inr missing ↦ inr (missing, rw (obtain_missing, missing) refl)
        ]

  pub obtain_cert-cases :
      (lock : LockAnswers) (given_name : Str) (interactive : Bool) (now : ℕ)
      (tries : List (Try State)) (s : State) (locks : Locks)
      → ((cfg.issuers ≡ [])
          × (obtain_cert st enc n cfg lock given_name interactive now tries (s, locks)
              ≡ ((s, locks), some no_issuers)))
        ⊎ (((storage_has_cert_resources_any_issuer st enc
                  (keys_of_issuers cfg.issuers)
                  (cfg.subject_transformer given_name)
                  s
                ≡ true)
              × (obtain_cert st enc n cfg lock given_name interactive now tries (s, locks)
                  ≡ ((s, locks), none)))
            ⊎ ((storage_has_cert_resources_any_issuer st enc
                    (keys_of_issuers cfg.issuers)
                    (cfg.subject_transformer given_name)
                    s
                  ≡ false)
                × (obtain_cert st enc n cfg lock given_name interactive now tries (s, locks)
                    ≡ obtain_checked st enc n cfg lock
                        (cfg.subject_transformer given_name)
                        interactive
                        now
                        tries
                        (s, locks))))
  unfolding obtain_cert
  obtain_cert-cases lock given_name interactive now tries s locks =
      let name = cfg.subject_transformer given_name in
      elim (List-cases cfg.issuers) [
        | inl nobody ↦ inl (nobody, simp (obtain_cert, nobody) refl)
        | inr (i, (is, some_issuer)) ↦
            let run : obtain_cert st enc n cfg lock given_name interactive now tries (s, locks)
                ≡ obtain_missing st enc n cfg lock name interactive now tries (s, locks) =
              (simp (obtain_cert, some_issuer) refl) in
            elim (obtain_missing-cases lock name interactive now tries s locks) [
              | inl (there, e) ↦ inr (inl (there, run ∙ e))
              | inr (missing, e) ↦ inr (inr (missing, run ∙ e))
            ]
      ]
