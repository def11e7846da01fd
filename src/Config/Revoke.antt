-- ===== src/Config/Revoke.antt =====
-- config.go: RevokeCert, and what it leaves of the resources of a domain.
use certmagic.Prelude.{
  ℕ, ◌≡◌, ◌⊎◌, inl, inr, refl, ap, sym, ◌∙◌, subst, Bool, true, not, Bool-cases, Option-cases,
  Option, none, some, List, [], ◌∷◌, if◌then◌else◌, Among, Str, Result, ok, err,
}
use certmagic.Storage.Backend.{Storage, LoadError, exists, delete-none, delete-still_none}
use certmagic.Storage.Keys.{site_cert, site_private_key, site_meta, certs_site_prefix}
use certmagic.Config.Resources.{
  CertificateResource, Encoding, load_cert_resource, delete_each, delete_site_assets,
}

-- An issuer, with its Revoke for a reason if it has one: whether there was no error.
pub record RevokingIssuer : Type 0 where
  pub issuer_key : Str
  pub revoke : Option (CertificateResource → ℕ → Bool)

pub data RevokeError : Type 0 where
  no_revoker no_private_key not_revoked not_cleaned_up : RevokeError
  not_loaded : LoadError → RevokeError

module _ (st : Storage) (enc : Encoding) where
  open st use {State, load, delete}

  -- The rest of a round of the loop, when the issuer can revoke.
  unfoldable pub revoke_loaded :
      Str
      → Str
      → (CertificateResource → ℕ → Bool)
      → ℕ
      → Result LoadError CertificateResource
      → State
      → State × Option RevokeError
  unfolding delete_site_assets exists
  revoke_loaded issuer_key domain revoke reason (err e) s = (s, some (not_loaded e))
  revoke_loaded issuer_key domain revoke reason (ok res) s =
      let (s', good) = delete_site_assets st enc issuer_key domain s in
      if not (exists st s (site_private_key issuer_key domain))
      then (s, some no_private_key)
      else if not (revoke res reason)
      then (s, some not_revoked)
      else (s', if good then none else some not_cleaned_up)

  unfoldable pub revoke_with : RevokingIssuer → Str → ℕ → State → State × Option RevokeError
  unfolding revoke_loaded load_cert_resource
  revoke_with issuer domain reason s = elim (issuer.revoke) [
    | none ↦ (s, some no_revoker)
    | some revoke ↦
        revoke_loaded issuer.issuer_key domain revoke reason
          (load_cert_resource st enc issuer.issuer_key domain s) s
  ]

  unfoldable pub revoke_cert : List RevokingIssuer → Str → ℕ → State → State × Option RevokeError
  unfolding revoke_with
  revoke_cert [] domain reason s = (s, none)
  revoke_cert (issuer ∷ issuers) domain reason s =
      let (s', fault) = revoke_with issuer domain reason s in
      elim fault [ some e ↦ (s', some e) | none ↦ revoke_cert issuers domain reason s' ]

  -- Deletions that work bring nothing back, and leave nothing under their keys.
  delete_each-none :
      (keys : List Str) (s : State) (j : Str)
      → (delete_each st enc keys s).1 ≡ true
      → (load s j ≡ none) ⊎ Among j keys
      → load (delete_each st enc keys s).0 j ≡ none
  unfolding delete_each
  delete_each-none [] s j h (inl gone) = gone
  delete_each-none [] s j h (inr a) = absurd a
  delete_each-none (k ∷ keys) s j h before = elim (Bool-cases (delete k s).1) [
    | inr bad ↦ let q = rw bad at h in cc
    | inl good ↦ rw good (
        delete_each-none keys (delete k s).0 j (rw good at h) (elim before [
          | inl gone ↦ inl (delete-still_none st k s j good gone)
          | inr (inl same) ↦ inl (ap (load (delete k s).0) same ∙ delete-none st k s good)
          | inr (inr later) ↦ inr later
        ]))
  ]

  -- The files of a site.
  abbrev pub site_keys_of : Str → Str → List Str
  site_keys_of issuer_key domain =
      site_cert issuer_key domain
      ∷ site_private_key issuer_key domain
      ∷ site_meta issuer_key domain
      ∷ []

  delete_site_assets-none :
      (issuer_key domain : Str) (s : State) (j : Str)
      → (delete_site_assets st enc issuer_key domain s).1 ≡ true
      → (load s j ≡ none) ⊎ Among j (site_keys_of issuer_key domain)
      → load (delete_site_assets st enc issuer_key domain s).0 j ≡ none
  unfolding delete_site_assets
  delete_site_assets-none issuer_key domain s j h before =
      let files = delete_each st enc (site_keys_of issuer_key domain) s in
      let folder = certs_site_prefix issuer_key domain in
      elim (Bool-cases files.1) [
        | inr bad ↦ let q = rw (delete_site_assets, bad) at h in cc
        | inl good ↦
            let worked : (delete folder files.0).1 ≡ true = (rw (delete_site_assets, good) at h) in
            let gone = delete_each-none (site_keys_of issuer_key domain) s j good before in
            rw (delete_site_assets, good) (delete-still_none st folder files.0 j worked gone)
      ]

  revoke_loaded-none :
      (issuer_key domain : Str) (revoke : CertificateResource → ℕ → Bool) (reason : ℕ)
      (r : Result LoadError CertificateResource) (s : State) (j : Str)
      → (revoke_loaded issuer_key domain revoke reason r s).1 ≡ none
      → (load s j ≡ none) ⊎ Among j (site_keys_of issuer_key domain)
      → load (revoke_loaded issuer_key domain revoke reason r s).0 j ≡ none
  unfolding revoke_loaded
  revoke_loaded-none issuer_key domain revoke reason (err e) s j h before = cc
  revoke_loaded-none issuer_key domain revoke reason (ok res) s j h before =
      elim (Bool-cases (exists st s (site_private_key issuer_key domain))) [
        | inr keyless ↦ let q = rw (revoke_loaded, keyless) at h in cc
        | inl keyed ↦ elim (Bool-cases (revoke res reason)) [
          | inr refused ↦ let q = rw (revoke_loaded, keyed, refused) at h in cc
          | inl revoked ↦ elim (Bool-cases (delete_site_assets st enc issuer_key domain s).1) [
            | inr bad ↦ let q = rw (revoke_loaded, keyed, revoked, bad) at h in cc
            | inl good ↦
                rw (revoke_loaded, keyed, revoked)
                  (delete_site_assets-none issuer_key domain s j good before)
          ]
        ]
      ]

  revoke_with-none :
      (issuer : RevokingIssuer) (domain : Str) (reason : ℕ) (s : State) (j : Str)
      → (revoke_with issuer domain reason s).1 ≡ none
      → (load s j ≡ none) ⊎ Among j (site_keys_of issuer.issuer_key domain)
      → load (revoke_with issuer domain reason s).0 j ≡ none
  unfolding revoke_with
  revoke_with-none issuer domain reason s j h before = elim (Option-cases issuer.revoke) [
    | inl unable ↦ let q = rw (revoke_with, unable) at h in cc
    | inr (revoke, able) ↦
        let loaded = load_cert_resource st enc issuer.issuer_key domain s in
        let run : revoke_with issuer domain reason s
            ≡ revoke_loaded issuer.issuer_key domain revoke reason loaded s =
          (simp (revoke_with, able) refl) in
        ap (λ x. load x.0 j) run
        ∙ revoke_loaded-none issuer.issuer_key domain revoke reason loaded s j
            (sym (ap (λ x. x.1) run) ∙ h) before
  ]

  -- A file that is gone, or that is a file of the domain for one of the issuers.
  abbrev IsDoomed : List RevokingIssuer → Str → State → Str → Type 0
  IsDoomed issuers domain s j =
      (load s j ≡ none)
      ⊎ ((issuer : RevokingIssuer) × Among issuer issuers
          × Among j (site_keys_of issuer.issuer_key domain))

  revoked_none :
      (issuers : List RevokingIssuer) (domain : Str) (reason : ℕ) (s : State) (j : Str)
      → (revoke_cert issuers domain reason s).1 ≡ none
      → IsDoomed issuers domain s j
      → load (revoke_cert issuers domain reason s).0 j ≡ none
  unfolding revoke_cert
  revoked_none [] domain reason s j h (inl gone) = gone
  revoked_none [] domain reason s j h (inr (i, a, k)) = absurd a
  revoked_none (issuer ∷ issuers) domain reason s j h before =
      let one = revoke_with issuer domain reason s in
      elim (Option-cases one.1) [
        | inr (e, bad) ↦ let q = rw (revoke_cert, bad) at h in cc
        | inl fine ↦
            let run : revoke_cert (issuer ∷ issuers) domain reason s
                ≡ revoke_cert issuers domain reason one.0 =
              (rw (revoke_cert, fine) refl) in
            let gone = revoke_with-none issuer domain reason s j fine in
            ap (λ x. load x.0 j) run
            ∙ revoked_none issuers domain reason one.0 j (sym (ap (λ x. x.1) run) ∙ h)
                (elim before [
                  | inl absent ↦ inl (gone (inl absent))
                  | inr (i, inl same, k) ↦
                      inl (
                        gone (inr (subst (λ x. Among j (site_keys_of x.issuer_key domain)) same k)))
                  | inr (i, inr later, k) ↦ inr (i, later, k)
                ])
      ]

  -- When revoking a certificate returns no error, the storage has neither the certificate nor the
  -- private key nor the metadata of the domain any more, for any of the issuers.
  pub revoke_cert-deleted :
      (issuers : List RevokingIssuer) (issuer : RevokingIssuer) (domain : Str) (reason : ℕ)
      (s : State)
      → (revoke_cert issuers domain reason s).1 ≡ none
      → Among issuer issuers
      → (load (revoke_cert issuers domain reason s).0 (site_cert issuer.issuer_key domain) ≡ none)
        × (load (revoke_cert issuers domain reason s).0 (site_private_key issuer.issuer_key domain)
            ≡ none)
        × (load (revoke_cert issuers domain reason s).0 (site_meta issuer.issuer_key domain) ≡ none)
  revoke_cert-deleted issuers issuer domain reason s h a = (
    revoked_none issuers domain reason s _ h (inr (issuer, a, inl refl)),
    revoked_none issuers domain reason s _ h (inr (issuer, a, inr (inl refl))),
    revoked_none issuers domain reason s _ h (inr (issuer, a, inr (inr (inl refl)))),
  )
