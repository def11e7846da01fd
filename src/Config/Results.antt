-- ===== src/Config/Results.antt =====
-- config.go: what obtainCert has done when it returns.
use certmagic.Prelude.{
  ℕ, ◌≡◌, ◌⊎◌, inl, inr, refl, ap, sym, ◌∙◌, subst, Bool, true, false, Bool-cases, Option-cases,
  Option, none, List, [], ◌∷◌, if◌then◌else◌, Among, Str, Result, Result-cases, ok, err, codes,
}
use certmagic.Storage.Backend.{Storage}
use certmagic.Storage.Paths.{IsRegular}
use certmagic.Config.Csr.{Csr, Naming, generate_csr, names_from_csr, names_key}
use certmagic.Config.Resources.{Encoding, storage_has_cert_resources_any_issuer, save_cert_resource}
use certmagic.Config.Stored.{save_cert_resource-Holds}
use certmagic.Config.Issuing.{AttemptError, IssuedCertificate, Issuer, Config, keys_of_issuers}
use certmagic.Config.Obtain.{
  try_issuers, resource_of, save_issued, obtain_with, key_or_new, reuse_private_key, obtain_attempt,
}
use certmagic.Config.Obtained.{
  IsObtained, AllIn, AllFrom, IsAnswer, find_key-configured, try_issuers-IsAnswer,
}

module _ (st : Storage) (enc : Encoding) (n : Naming) (cfg : Config st.State) where
  open st use {State}

  -- The names that requests carry, and the keys of the issuers, can be parts of a path; shuffling
  -- adds no issuer.
  pub record IsOrderly (name : Str) : Type 0 where
    pub issuers_regular : (i : Issuer State) → Among i cfg.issuers → IsRegular i.issuer_key
    pub names_regular :
        (key : Str) (csr : Csr)
        → generate_csr n cfg.must_staple key (name ∷ []) false ≡ ok csr
        → IsRegular (names_key (names_from_csr csr))
    pub shuffle_within :
        (now : ℕ) (issuers : List (Issuer State)) (i : Issuer State)
        → Among i (cfg.shuffle now issuers)
        → Among i issuers

  pub saved-IsObtained :
      (now : ℕ) (name key : Str) (csr : Csr) (issuers : List (Issuer State)) (s : State)
      (r : Result AttemptError (Issuer State × IssuedCertificate))
      → IsOrderly name
      → AllIn st enc n cfg issuers
      → generate_csr n cfg.must_staple key (name ∷ []) false ≡ ok csr
      → IsAnswer st enc n cfg now key name issuers r
      → (save_issued st enc n cfg csr key (s, r)).1 ≡ none
      → IsObtained st enc n cfg name (save_issued st enc n cfg csr key (s, r)).0
  unfolding save_issued resource_of
  saved-IsObtained now name key csr issuers s (err e) o within made answer h = cc
  saved-IsObtained now name key csr issuers s (ok (issuer, issued)) o within made (among, given) h =
      let res = resource_of st enc n cfg csr key issuer issued in
      let among' = within issuer among in
      let fine : (save_cert_resource st enc issuer.issuer_key res s).1 ≡ none =
        elim (Option-cases (save_cert_resource st enc issuer.issuer_key res s).1) [
          | inl good ↦ good
          | inr (e, bad) ↦ let q = rw (bad, save_issued) at h in cc
        ] in
      let (meta, encoded, held) =
        save_cert_resource-Holds st enc issuer.issuer_key res s (o.issuers_regular issuer among')
          (o.names_regular key csr made) fine in
      record {
        issuer = issuer;
        issued = issued;
        key = key;
        csr = csr;
        meta = meta;
        configured = among';
        requested = made;
        answered = (now, given);
        held = held;
      }

  obtain_with-IsObtained :
      (now : ℕ) (interactive : Bool) (name : Str) (reused : Option Str)
      (issuers : List (Issuer State)) (s : State)
      → IsOrderly name
      → AllIn st enc n cfg issuers
      → (obtain_with st enc n cfg now interactive name (reused, issuers) s).1 ≡ none
      → IsObtained st enc n cfg name
          (obtain_with st enc n cfg now interactive name (reused, issuers) s).0
  unfolding obtain_with
  obtain_with-IsObtained now interactive name reused issuers s o within h =
      elim (Result-cases (key_or_new st enc n cfg now reused)) [
        | inr (e, bad) ↦ let q = rw (bad, obtain_with) at h in cc
        | inl (key, got) ↦
            elim (Result-cases (generate_csr n cfg.must_staple key (name ∷ []) false)) [
              | inr (e, bad) ↦ let q = rw (got, obtain_with, bad) at h in cc
              | inl (csr, made) ↦
                  let order =
                    if cfg.use_first_random_issuer then cfg.shuffle now issuers else issuers in
                  let within' : AllIn st enc n cfg order = (λ i a.
                    elim (Bool-cases cfg.use_first_random_issuer) [
                      | inl random ↦ within i (o.shuffle_within now issuers i (rw random at a))
                      | inr fixed ↦ within i (rw fixed at a)
                    ]) in
                  let tried = try_issuers st enc n cfg now interactive key name csr none order s in
                  let run : obtain_with st enc n cfg now interactive name (reused, issuers) s
                      ≡ save_issued st enc n cfg csr key tried =
                    (rw (got, obtain_with, made) refl) in
                  subst (λ x. IsObtained st enc n cfg name x.0) (sym run)
                    (saved-IsObtained now name key csr order tried.0 tried.1 o within' made
                      (try_issuers-IsAnswer st enc n cfg now interactive key name csr none order s
                        made)
                      (sym (ap (λ x. x.1) run) ∙ h))
            ]
      ]

  -- What an attempt without an error has found or done.
  abbrev pub IsDone : Str → State → State → Type 0
  IsDone name s s' =
      ((storage_has_cert_resources_any_issuer st enc (keys_of_issuers cfg.issuers) name s ≡ true)
        × (s' ≡ s))
      ⊎ IsObtained st enc n cfg name s'

  chosen_from : Str → State → Result AttemptError (Option Str × List (Issuer State))
  chosen_from name s =
      if cfg.reuse_private_keys
      then reuse_private_key st enc n cfg name s
      else ok (none, cfg.issuers)

  chosen-configured : (name : Str) (s : State) → AllFrom st enc n cfg (chosen_from name s)
  unfolding chosen_from reuse_private_key
  chosen-configured name s = elim (Bool-cases cfg.reuse_private_keys) [
    | inl reuse ↦
        subst (AllFrom st enc n cfg)
          (sym (
            let q : chosen_from name s ≡ reuse_private_key st enc n cfg name s =
              (rw (reuse, chosen_from) refl) in
            q))
          (find_key-configured st enc n cfg name [] cfg.issuers s (λ i a. absurd a) (λ i a. a))
    | inr fresh ↦
        subst (AllFrom st enc n cfg)
          (sym (
            let q : chosen_from name s ≡ ok (none, cfg.issuers) = (rw (fresh, chosen_from) refl) in
            q))
          (λ i a. a)
  ]

  -- An attempt that returns no error found the resources of the name in the storage, or the storage
  -- now holds what a configured issuer gave for a request for the name, with the key of the request.
  pub obtain_attempt-IsDone :
      (name : Str) (interactive : Bool) (now : ℕ) (s : State)
      → IsOrderly name
      → (obtain_attempt st enc n cfg name interactive now s).1 ≡ none
      → IsDone name s (obtain_attempt st enc n cfg name interactive now s).0
  unfolding obtain_attempt chosen_from
  obtain_attempt-IsDone name interactive now s o h =
      let there =
        storage_has_cert_resources_any_issuer st enc (keys_of_issuers cfg.issuers) name s in
      elim (Bool-cases there) [
        | inl already ↦ inl (already, rw (already, obtain_attempt) refl)
        | inr missing ↦ elim (Option-cases (cfg.on_event now (codes "cert_obtaining"))) [
          | inr (e, refused) ↦ let q = rw (missing, obtain_attempt, refused) at h in cc
          | inl fine ↦ elim (Result-cases (chosen_from name s)) [
            | inr (e, bad) ↦ let q = rw (missing, obtain_attempt, fine, bad) at h in cc
            | inl ((reused, issuers), good) ↦
                let run : obtain_attempt st enc n cfg name interactive now s
                    ≡ obtain_with st enc n cfg now interactive name (reused, issuers) s =
                  (rw (missing, obtain_attempt, fine, good) refl) in
                inr (
                  subst (λ x. IsObtained st enc n cfg name x.0) (sym run)
                    (obtain_with-IsObtained now interactive name reused issuers s o
                      (subst (AllFrom st enc n cfg) good (chosen-configured name s))
                      (sym (ap (λ x. x.1) run) ∙ h)))
          ]
        ]
      ]
