-- ===== src/Config/Managed.antt =====
-- certificates.go: certificates that are loaded from the storage, or given, into the cache.
use certmagic.Prelude.{ℕ, Bool, true, Option, none, some, List, [], ◌∷◌, Str, Result, ok, err}
use certmagic.Certificate.{
  Leaf, RenewalInfo, TlsCertificate, Certificate, empty_certificate, Ratios, RenewalConfig, Panic,
}
use certmagic.Certificate.Filling.{FillError, fill_cert_from_leaf}
use certmagic.Cache.{Cache, cache_certificate, replace_certificate}
use certmagic.Storage.Backend.{Storage, LoadError}
use certmagic.Config.Resources.{CertificateResource, Encoding, load_cert_resource_any_issuer}
use certmagic.Config.Renew.{AcmeData, get_acme_data, managed_cert_needs_renewal}

pub data MakeError : Type 0 where
  no_key_pair : MakeError
  not_filled : FillError → MakeError
  not_loaded : LoadError → MakeError

-- tls.X509KeyPair, when it gives no error; the parsing and the hash of certificates; JSON; what
-- stapleOCSP leaves of the storage and the certificate, with or without the PEM bundle; and the config's transformer of subjects.
pub record Making (S : Type 0) : Type 0 where
  pub key_pair : Str → Str → Option TlsCertificate
  pub parse : Str → Option Leaf
  pub hash_chain : List Str → Str
  pub unmarshal : Str → Option AcmeData
  pub staple : Option Str → Certificate → S → S × Certificate
  pub subject_transformer : Str → Str

module _ (st : Storage) (enc : Encoding) (mk : Making st.State) (issuers : List Str) where
  open st use {State}

  unfoldable pub filled_certificate : TlsCertificate → Result MakeError Certificate
  unfolding fill_cert_from_leaf
  filled_certificate tls = elim (fill_cert_from_leaf mk.parse mk.hash_chain empty_certificate tls) [
    | err e ↦ err (not_filled e)
    | ok cert ↦ ok cert
  ]

  unfoldable pub make_certificate : (cert_pem key_pem : Str) → Result MakeError Certificate
  unfolding filled_certificate
  make_certificate cert_pem key_pem = elim (mk.key_pair cert_pem key_pem) [
    | none ↦ err no_key_pair
    | some tls ↦ filled_certificate tls
  ]

  -- An error of the stapling is not returned.
  unfoldable pub stapled :
      Option Str → Result MakeError Certificate → State → State × Result MakeError Certificate
  stapled pem (err e) s = (s, err e)
  stapled pem (ok cert) s = let (s', cert') = mk.staple pem cert s in (s', ok cert')

  unfoldable pub make_certificate_with_ocsp :
      (cert_pem key_pem : Str) → State → State × Result MakeError Certificate
  unfolding make_certificate stapled
  make_certificate_with_ocsp cert_pem key_pem s =
      stapled (some cert_pem) (make_certificate cert_pem key_pem) s

  -- Renewal information of the issuer's data, if there is any.
  unfoldable pub ari_or : RenewalInfo → CertificateResource → RenewalInfo
  unfolding get_acme_data
  ari_or old res = elim (get_acme_data mk.unmarshal res) [
    | none ↦ old
    | some data' ↦ elim (data'.renewal_info) [ none ↦ old | some ari ↦ ari ]
  ]

  unfoldable pub as_managed : CertificateResource → Certificate → Certificate
  unfolding ari_or
  as_managed res cert = record cert {
    managed = true;
    issuer_key = res.issuer_key;
    ari = ari_or cert.ari res;
  }

  unfoldable pub of_resource : CertificateResource → State → State × Result MakeError Certificate
  unfolding make_certificate_with_ocsp as_managed
  of_resource res s =
      let (s', made) = make_certificate_with_ocsp res.certificate_pem res.private_key_pem s in
      (s', elim made [ err e ↦ err e | ok cert ↦ ok (as_managed res cert) ])

  unfoldable pub load_managed_certificate : Str → State → State × Result MakeError Certificate
  unfolding of_resource load_cert_resource_any_issuer
  load_managed_certificate domain s = elim (load_cert_resource_any_issuer st enc issuers domain s) [
    | err e ↦ (s, err (not_loaded e))
    | ok res ↦ of_resource res s
  ]

  -- What is made goes to the cache; `rnd` is the random number that cacheCertificate draws.
  unfoldable pub cached : ℕ → Result MakeError Certificate → Cache → Cache
  unfolding cache_certificate
  cached rnd (err e) c = c
  cached rnd (ok cert) c = cache_certificate rnd cert c

  unfoldable pub cache_managed_certificate :
      ℕ → Str → State × Cache → (State × Cache) × Result MakeError Certificate
  unfolding load_managed_certificate cached
  cache_managed_certificate rnd domain (s, c) =
      let (s', made) = load_managed_certificate (mk.subject_transformer domain) s in
      ((s', cached rnd made c), made)

  -- A certificate without names is a panic, told by `none`.
  unfoldable pub reload_managed_certificate :
      ℕ → Certificate → State × Cache → Option ((State × Cache) × Result MakeError Certificate)
  unfolding load_managed_certificate
  reload_managed_certificate rnd old (s, c) = elim (old.names) [
    | [] ↦ none
    | name ∷ _ ↦
        let (s', made) = load_managed_certificate name s in
        some ((s', elim made [ err e ↦ c | ok new ↦ replace_certificate rnd old new c ]), made)
  ]

  -- The hash, and the certificate with the given tags in the cache.
  unfoldable pub cache_unmanaged :
      ℕ
      → List Str
      → State × Result MakeError Certificate
      → Cache
      → (State × Cache) × Result MakeError Str
  unfolding cache_certificate
  cache_unmanaged rnd tags (s, err e) c = ((s, c), err e)
  cache_unmanaged rnd tags (s, ok cert) c =
      ((s, cache_certificate rnd (record cert { tags = tags }) c), ok cert.hash)

  unfoldable pub cache_unmanaged_certificate_pem_bytes :
      ℕ
      → (cert_pem key_pem : Str) → List Str
      → State × Cache
      → (State × Cache) × Result MakeError Str
  unfolding cache_unmanaged make_certificate_with_ocsp
  cache_unmanaged_certificate_pem_bytes rnd cert_pem key_pem tags (s, c) =
      cache_unmanaged rnd tags (make_certificate_with_ocsp cert_pem key_pem s) c

  unfoldable pub cache_unmanaged_tls_certificate :
      ℕ → TlsCertificate → List Str → State × Cache → (State × Cache) × Result MakeError Str
  unfolding cache_unmanaged filled_certificate stapled
  cache_unmanaged_tls_certificate rnd tls tags (s, c) =
      cache_unmanaged rnd tags (stapled none (filled_certificate tls) s) c

  -- No error and whether it is to be renewed; a certificate without names is a panic.
  unfoldable pub managed_cert_in_storage_needs_renewal :
      {f : Ratios}
      → RenewalConfig f
      → (time draw : ℕ) → Certificate
      → State
      → Option (Result LoadError (Result Panic Bool))
  unfolding load_cert_resource_any_issuer managed_cert_needs_renewal
  managed_cert_in_storage_needs_renewal {f} renewal time draw cert s = elim (cert.names) [
    | [] ↦ none
    | name ∷ _ ↦ some (elim (load_cert_resource_any_issuer st enc issuers name s) [
      | err e ↦ err e
      | ok res ↦ ok (managed_cert_needs_renewal f renewal mk.unmarshal enc time draw res).1
    ])
  ]
