-- ===== src/Config/Cached.antt =====
-- certificates.go: the cache after a certificate is loaded or given.
use certmagic.Prelude.{
  ℕ, ◌≡◌, ◌≢◌, inl, inr, refl, ap, sym, ◌∙◌, subst, true, Option-cases, Option, some, List, [], ◌∷◌,
  Str, Result, Result-cases, ok, err,
}
use certmagic.Certificate.{Leaf, TlsCertificate, Certificate, empty_certificate}
use certmagic.Certificate.Filling.{FillError, fill_cert_from_leaf, leaf_of, named, subject_names}
use certmagic.Cache.{Cache, cache_certificate}
use certmagic.Cache.Invariant.{IsIndexed}
use certmagic.Cache.Keeps.{cache_certificate-IsIndexed}
use certmagic.Storage.Backend.{Storage}
use certmagic.Config.Resources.{CertificateResource, Encoding, load_cert_resource_any_issuer}
use certmagic.Config.Managed.{
  MakeError, Making, filled_certificate, make_certificate, stapled, make_certificate_with_ocsp,
  as_managed, of_resource, load_managed_certificate, cached, cache_managed_certificate,
}

-- The certificate, if there is one, has a hash that is not empty.
abbrev HasHash : {E : Type 0} → Result E Certificate → Type 0
HasHash (err e) = Unit {0}
HasHash (ok cert) = cert.hash ≢ []

module _ (parse : Str → Option Leaf) (hash_chain : List Str → Str)
    (full : (chain : List Str) → hash_chain chain ≢ []) where
  named-HasHash :
      (cert : Certificate) (tls : TlsCertificate) (leaf : Leaf) (names : List Str)
      → HasHash (named parse hash_chain cert tls leaf names)
  unfolding named
  named-HasHash cert tls leaf [] = tt
  named-HasHash cert tls leaf (name ∷ names) = full tls.chain

  filled-HasHash :
      (cert : Certificate) (tls : TlsCertificate)
      → HasHash (fill_cert_from_leaf parse hash_chain cert tls)
  unfolding fill_cert_from_leaf
  filled-HasHash cert tls = elim (Result-cases (leaf_of parse hash_chain tls)) [
    | inl (leaf, found) ↦
        let run : fill_cert_from_leaf parse hash_chain cert tls
            ≡ named parse hash_chain cert tls leaf (subject_names leaf) =
          (rw (fill_cert_from_leaf, found) refl) in
        subst HasHash (sym run) (named-HasHash cert tls leaf (subject_names leaf))
    | inr (e, bad) ↦
        let run : fill_cert_from_leaf parse hash_chain cert tls ≡ err e =
          (rw (fill_cert_from_leaf, bad) refl) in
        subst HasHash (sym run) tt
  ]

module _ (st : Storage) (enc : Encoding) (mk : Making st.State) (issuers : List Str) where
  open st use {State}

  -- Hashes are not empty, and stapling keeps the hash.
  pub record IsHashing : Type 0 where
    pub full : (chain : List Str) → mk.hash_chain chain ≢ []
    pub kept :
        (pem : Option Str) (cert : Certificate) (s : State)
        → (mk.staple pem cert s).1.hash ≡ cert.hash

  filled_certificate-HasHash :
      (tls : TlsCertificate) → IsHashing → HasHash (filled_certificate st enc mk issuers tls)
  unfolding filled_certificate
  filled_certificate-HasHash tls h =
      go (fill_cert_from_leaf mk.parse mk.hash_chain empty_certificate tls) refl
    where
      go :
          (r : Result FillError Certificate)
          → fill_cert_from_leaf mk.parse mk.hash_chain empty_certificate tls ≡ r
          → HasHash (filled_certificate st enc mk issuers tls)
      go (err e) is =
          let run : filled_certificate st enc mk issuers tls ≡ err (MakeError.not_filled e) =
            (rw (filled_certificate, is) refl) in
          subst HasHash (sym run) tt
      go (ok cert) is =
          let run : filled_certificate st enc mk issuers tls ≡ ok cert =
            (rw (filled_certificate, is) refl) in
          subst HasHash (sym run)
            (subst HasHash is (filled-HasHash mk.parse mk.hash_chain h.full empty_certificate tls))

  made-HasHash :
      (cert_pem key_pem : Str)
      → IsHashing
      → HasHash (make_certificate st enc mk issuers cert_pem key_pem)
  unfolding make_certificate
  made-HasHash cert_pem key_pem h = elim (Option-cases (mk.key_pair cert_pem key_pem)) [
    | inl none_there ↦
        let run : make_certificate st enc mk issuers cert_pem key_pem ≡ err MakeError.no_key_pair =
          (rw (make_certificate, none_there) refl) in
        subst HasHash (sym run) tt
    | inr (tls, there) ↦
        let run : make_certificate st enc mk issuers cert_pem key_pem
            ≡ filled_certificate st enc mk issuers tls =
          (rw (make_certificate, there) refl) in
        subst HasHash (sym run) (filled_certificate-HasHash tls h)
  ]

  stapled-HasHash :
      (pem : Option Str) (r : Result MakeError Certificate) (s : State)
      → IsHashing
      → HasHash r
      → HasHash (stapled st enc mk issuers pem r s).1
  unfolding stapled
  stapled-HasHash pem (err e) s h full = tt
  stapled-HasHash pem (ok cert) s h full = λ e. full (sym (h.kept pem cert s) ∙ e)

  with_ocsp-HasHash :
      (cert_pem key_pem : Str) (s : State)
      → IsHashing
      → HasHash (make_certificate_with_ocsp st enc mk issuers cert_pem key_pem s).1
  unfolding make_certificate_with_ocsp
  with_ocsp-HasHash cert_pem key_pem s h =
      stapled-HasHash (some cert_pem) (make_certificate st enc mk issuers cert_pem key_pem) s h
        (made-HasHash cert_pem key_pem h)

  cached-IsIndexed :
      (rnd : ℕ) (r : Result MakeError Certificate) (c : Cache)
      → IsIndexed c
      → HasHash r
      → IsIndexed (cached st enc mk issuers rnd r c)
  unfolding cached
  cached-IsIndexed rnd (err e) c v full = v
  cached-IsIndexed rnd (ok cert) c v full = cache_certificate-IsIndexed rnd cert c v full

  managed-HasHash :
      (res : CertificateResource) (s : State) (r : State × Result MakeError Certificate)
      → make_certificate_with_ocsp st enc mk issuers res.certificate_pem res.private_key_pem s ≡ r
      → HasHash r.1
      → HasHash (of_resource st enc mk issuers res s).1
  unfolding of_resource as_managed
  managed-HasHash res s (s', err e) is full =
      let run : (of_resource st enc mk issuers res s).1 ≡ err e = (rw (of_resource, is) refl) in
      subst HasHash (sym run) tt
  managed-HasHash res s (s', ok cert) is full =
      let run : (of_resource st enc mk issuers res s).1
          ≡ ok (as_managed st enc mk issuers res cert) =
        (rw (of_resource, is) refl) in
      subst HasHash (sym run) full

  loaded-HasHash :
      (domain : Str) (s : State)
      → IsHashing
      → HasHash (load_managed_certificate st enc mk issuers domain s).1
  unfolding load_managed_certificate
  loaded-HasHash domain s h =
      elim (Result-cases (load_cert_resource_any_issuer st enc issuers domain s)) [
        | inr (e, bad) ↦
            let run : (load_managed_certificate st enc mk issuers domain s).1
                ≡ err (MakeError.not_loaded e) =
              (rw (load_managed_certificate, bad) refl) in
            subst HasHash (sym run) tt
        | inl (res, good) ↦
            let run : load_managed_certificate st enc mk issuers domain s
                ≡ of_resource st enc mk issuers res s =
              (rw (load_managed_certificate, good) refl) in
            subst (λ x. HasHash x.1) (sym run)
              (managed-HasHash res s _ refl
                (with_ocsp-HasHash res.certificate_pem res.private_key_pem s h))
      ]

  -- Caching a managed certificate from the storage keeps the index of the cache exact, whether it can
  -- be loaded or not, if hashes of certificates are not empty and stapling keeps them.
  pub cache_managed_certificate-IsIndexed :
      (rnd : ℕ) (domain : Str) (s : State) (c : Cache)
      → IsHashing
      → IsIndexed c
      → IsIndexed (cache_managed_certificate st enc mk issuers rnd domain (s, c)).0.1
  unfolding cache_managed_certificate
  cache_managed_certificate-IsIndexed rnd domain s c h v =
      cached-IsIndexed rnd
        (load_managed_certificate st enc mk issuers (mk.subject_transformer domain) s).1 c v
        (loaded-HasHash (mk.subject_transformer domain) s h)

  -- What is cached from the storage is marked as managed, with the issuer of the resource that was
  -- loaded for the transformed name.
  pub cache_managed_certificate-managed :
      (rnd : ℕ) (domain : Str) (s : State) (c : Cache) (cert : Certificate)
      → (cache_managed_certificate st enc mk issuers rnd domain (s, c)).1 ≡ ok cert
      → (cert.managed ≡ true)
        × ((cache_managed_certificate st enc mk issuers rnd domain (s, c)).0.1
            ≡ cache_certificate rnd cert c)
        × ((res : CertificateResource) × (load_cert_resource_any_issuer st enc issuers
                (mk.subject_transformer domain)
                s
              ≡ ok res)
            × (cert.issuer_key ≡ res.issuer_key))
  unfolding cache_managed_certificate load_managed_certificate of_resource as_managed cached
  cache_managed_certificate-managed rnd domain s c cert h =
      let name = mk.subject_transformer domain in
      elim (Result-cases (load_cert_resource_any_issuer st enc issuers name s)) [
        | inr (e, bad) ↦
            let q = rw (cache_managed_certificate, load_managed_certificate, bad) at h in cc
        | inl (res, good) ↦
            elim (Result-cases
              (make_certificate_with_ocsp st enc mk issuers res.certificate_pem res.private_key_pem
                s).1) [
                  | inr (e, bad) ↦
                      let q =
                        rw
                          (
                            cache_managed_certificate, load_managed_certificate, good, of_resource,
                            bad,
                          )
                          at h in
                      cc
                  | inl (made, fine) ↦
                      let q : ok (as_managed st enc mk issuers res made) ≡ ok cert =
                        (rw
                          (
                            cache_managed_certificate, load_managed_certificate, good, of_resource,
                            fine,
                          )
                          at h) in
                      let same : as_managed st enc mk issuers res made ≡ cert = cc in
                      (
                        sym (ap (λ x. x.managed) same),
                        ap (λ r. cached st enc mk issuers rnd r c) h,
                        (res, good, sym (ap (λ x. x.issuer_key) same)),
                      )
                ]
      ]
