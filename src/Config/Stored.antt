-- ===== src/Config/Stored.antt =====
-- crypto.go and config.go: what the storage holds after the resources of a site are saved or deleted.
use certmagic.Prelude.{
  ◌≡◌, inl, inr, ap, ◌∙◌, true, false, Bool-cases, Option-cases, none, some, List, Str, str_eq_refl,
  ok,
}
use certmagic.Storage.Backend.{Storage, read}
use certmagic.Storage.Keys.{site_cert, site_private_key, site_meta}
use certmagic.Storage.Paths.{IsRegular}
use certmagic.Storage.Apart.{site_keys-apart}
use certmagic.Storage.Store.{store_tx, latest, store_tx-stored}
use certmagic.Config.Csr.{names_key}
use certmagic.Config.Resources.{
  CertificateResource, Encoding, site_files, save_cert_resource, with_meta, load_files,
  load_cert_resource,
}

module _ (st : Storage) (enc : Encoding) where
  open st use {State, load, broken}

  -- The three files of a resource under an issuer and a name.
  pub record Holds (issuer_key name : Str) (res : CertificateResource) (meta : Str) (s : State)
      : Type 0 where
    pub key_held : load s (site_private_key issuer_key name) ≡ some res.private_key_pem
    pub cert_held : load s (site_cert issuer_key name) ≡ some res.certificate_pem
    pub meta_held : load s (site_meta issuer_key name) ≡ some meta

  pub saved-Holds :
      (issuer_key name meta : Str) (res : CertificateResource) (s : State)
      → IsRegular issuer_key
      → IsRegular name
      → (store_tx st (site_files st enc issuer_key name res meta) s).1 ≡ true
      → Holds issuer_key name res meta
          (store_tx st (site_files st enc issuer_key name res meta) s).0
  unfolding site_files latest
  saved-Holds issuer_key name meta res s r r' good =
      let (cert_key, meta_key, meta_cert) = site_keys-apart issuer_key name r r' in
      let held =
        λ (j : Str). store_tx-stored st (site_files st enc issuer_key name res meta) s j good in
      record {
        key_held =
            held (site_private_key issuer_key name)
            ∙ rw (cert_key, meta_key, str_eq_refl (site_private_key issuer_key name));
        cert_held =
            held (site_cert issuer_key name)
            ∙ rw (meta_cert, str_eq_refl (site_cert issuer_key name));
        meta_held = held (site_meta issuer_key name) ∙ rw (str_eq_refl (site_meta issuer_key name));
      }

  -- A resource that is saved without an error is held, with the metadata that encodes it.
  pub save_cert_resource-Holds :
      (issuer_key : Str) (res : CertificateResource) (s : State)
      → IsRegular issuer_key
      → IsRegular (names_key res.sans)
      → (save_cert_resource st enc issuer_key res s).1 ≡ none
      → (meta : Str) × (enc.encode res.sans res.issuer_data ≡ some meta)
        × Holds issuer_key
            (names_key res.sans)
            res
            meta
            (save_cert_resource st enc issuer_key res s).0
  unfolding save_cert_resource
  save_cert_resource-Holds issuer_key res s r r' saved =
      elim (Option-cases (enc.encode res.sans res.issuer_data)) [
        | inl missing ↦ let q = rw (missing, save_cert_resource) at saved in cc
        | inr (meta, made) ↦
            let tx = store_tx st (site_files st enc issuer_key (names_key res.sans) res meta) s in
            elim (Bool-cases tx.1) [
              | inl good ↦ (
                meta,
                made,
                rw (made, save_cert_resource)
                    (saved-Holds issuer_key (names_key res.sans) meta res s r r' good),
              )
              | inr bad ↦ let q = rw (made, save_cert_resource, bad) at saved in cc
            ]
      ]

  read-ok : (s : State) (k v : Str) → broken s k ≡ false → load s k ≡ some v → read st s k ≡ ok v
  unfolding read
  read-ok s k v whole e = rw (whole, e, read)

  load_files-Holds :
      (issuer_key name meta : Str) (res : CertificateResource) (s : State)
      → Holds issuer_key name res meta s
      → ((k : Str) → broken s k ≡ false)
      → load_files st enc issuer_key name s
        ≡ with_meta st enc issuer_key res.private_key_pem res.certificate_pem (enc.decode meta)
  unfolding load_files
  load_files-Holds issuer_key name meta res s h whole = rw (
    read-ok s _ _ (whole _) h.key_held,
    read-ok s _ _ (whole _) h.cert_held,
    read-ok s _ _ (whole _) h.meta_held,
  )

  -- A certificate resource that is saved without an error, under an issuer and the key of its names
  -- whose sanitized forms are parts of a path, is what is then loaded for that issuer and key, with
  -- the issuer's key and with the issuer's data indented: if decoding gives back the names that were
  -- encoded, and the issuer's data as they stand in an indented text; the key of the names is ASCII,
  -- and no file is unreadable.
  pub load_cert_resource-save :
      (issuer_key : Str) (res : CertificateResource) (s : State) (indented : Str → Str)
      → ((sans : List Str) (data' meta : Str)
          → enc.encode sans data' ≡ some meta
          → enc.decode meta ≡ some (sans, indented data'))
      → IsRegular issuer_key
      → IsRegular (names_key res.sans)
      → enc.to_ascii (names_key res.sans) ≡ some (names_key res.sans)
      → ((k : Str) → broken (save_cert_resource st enc issuer_key res s).0 k ≡ false)
      → (save_cert_resource st enc issuer_key res s).1 ≡ none
      → load_cert_resource st enc issuer_key
          (names_key res.sans)
          (save_cert_resource st enc issuer_key res s).0
        ≡ ok (record res { issuer_key = issuer_key; issuer_data = indented res.issuer_data })
  unfolding load_cert_resource with_meta
  load_cert_resource-save issuer_key res s indented undoes r r' ascii whole saved =
      let (meta, made, held) = save_cert_resource-Holds issuer_key res s r r' saved in
      let s' = (save_cert_resource st enc issuer_key res s).0 in
      rw (ascii, load_cert_resource)
        (load_files-Holds issuer_key (names_key res.sans) meta res s' held whole
          ∙ ap (with_meta st enc issuer_key res.private_key_pem res.certificate_pem)
              (undoes res.sans res.issuer_data meta made))
