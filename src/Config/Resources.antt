-- ===== src/Config/Resources.antt =====
-- crypto.go: saveCertResource, loadCertResource and loadCertResourceAnyIssuer; config.go: whether
-- the storage has the resources of a site, and their deletion.
use certmagic.Prelude.{
  Bool, true, false, ◌&&◌, ◌||◌, Option, none, some, List, [], ◌∷◌, ◌++◌, ltb, if◌then◌else◌, Str,
  codes, str_eq, Result, ok, err, ◌>>=◌,
}
use certmagic.Certificate.{Leaf}
use certmagic.Storage.Backend.{
  Storage, LoadError, not_exist, no_resources, undecodable, not_ascii, read, exists,
}
use certmagic.Storage.Keys.{site_cert, site_private_key, site_meta, certs_site_prefix}
use certmagic.Storage.Store.{KeyValue, store_tx}
use certmagic.Config.Csr.{names_key}

pub record CertificateResource : Type 0 where
  pub sans : List Str
  pub certificate_pem : Str
  pub private_key_pem : Str
  pub issuer_data : Str
  pub issuer_key : Str

-- The metadata file holds the names and the issuer's data; `decode` is json.Unmarshal, when it
-- gives no error. `blocks` is what pem.Decode gives when it is called again and again, with types,
-- and `parse_der` is x509.ParseCertificate.
pub record Encoding : Type 0 where
  pub encode : List Str → Str → Option Str
  pub decode : Str → Option (List Str × Str)
  pub to_ascii : Str → Option Str
  pub blocks : Str → List (Str × Str)
  pub parse_der : Str → Option Leaf

pub data SaveError : Type 0 where
  not_encoded not_stored : SaveError

-- The loop of parseCertsFromPEMBundle.
unfoldable pub parse_blocks : (Str → Option Leaf) → List (Str × Str) → Option (List Leaf)
parse_blocks parse [] = some []
parse_blocks parse ((t, der) ∷ rest) =
    let more = parse_blocks parse rest in
    if str_eq t (codes "CERTIFICATE")
    then elim (parse der) [
      | none ↦ none
      | some leaf ↦ elim more [ none ↦ none | some leaves ↦ some (leaf ∷ leaves) ]
    ]
    else more

-- The first certificate of a bundle, if every certificate in it can be parsed and there is one.
unfoldable pub first_leaf : Option (List Leaf) → Option Leaf
first_leaf (some (leaf ∷ leaves)) = some leaf
first_leaf _ = none

unfoldable pub parse_certs_from_pem_bundle : Encoding → Str → Option (List Leaf)
unfolding parse_blocks
parse_certs_from_pem_bundle enc bundle = elim (parse_blocks enc.parse_der (enc.blocks bundle)) [
  | none ↦ none
  | some leaves ↦ elim leaves [ [] ↦ none | leaf ∷ more ↦ some (leaf ∷ more) ]
]

-- The loop that keeps the newest of the resources that are loaded: later ones only if newer.
unfoldable pub newer :
    CertificateResource × Leaf → CertificateResource × Leaf → CertificateResource × Leaf
newer (r, leaf) (r', leaf') =
    if ltb leaf.not_before leaf'.not_before then (r', leaf') else (r, leaf)

unfoldable pub newest :
    CertificateResource × Leaf → List (CertificateResource × Leaf) → CertificateResource × Leaf
unfolding newer
newest best [] = best
newest best (r ∷ rs) = newest (newer best r) rs

module _ (st : Storage) (enc : Encoding) where
  open st use {State, delete}

  -- The three files of a resource.
  unfoldable pub site_files : Str → Str → CertificateResource → Str → List KeyValue
  site_files issuer_key cert_key res meta =
      record { key = site_private_key issuer_key cert_key; value = res.private_key_pem }
      ∷ record { key = site_cert issuer_key cert_key; value = res.certificate_pem }
      ∷ record { key = site_meta issuer_key cert_key; value = meta }
      ∷ []

  unfoldable pub save_cert_resource : Str → CertificateResource → State → State × Option SaveError
  unfolding site_files names_key
  save_cert_resource issuer_key res s = elim (enc.encode res.sans res.issuer_data) [
    | none ↦ (s, some not_encoded)
    | some meta ↦
        let (s', good) = store_tx st (site_files issuer_key (names_key res.sans) res meta) s in
        (s', if good then none else some not_stored)
  ]

  -- What the metadata adds to the files of a resource.
  unfoldable pub with_meta :
      Str → Str → Str → Option (List Str × Str) → Result LoadError CertificateResource
  with_meta issuer_key key cert none = err undecodable
  with_meta issuer_key key cert (some (sans, data')) = ok (record {
    sans = sans;
    certificate_pem = cert;
    private_key_pem = key;
    issuer_data = data';
    issuer_key = issuer_key;
  })

  unfoldable pub load_files : Str → Str → State → Result LoadError CertificateResource
  unfolding with_meta read
  load_files issuer_key name s = do
    key ← read st s (site_private_key issuer_key name)
    cert ← read st s (site_cert issuer_key name)
    meta ← read st s (site_meta issuer_key name)
    with_meta issuer_key key cert (enc.decode meta)

  unfoldable pub load_cert_resource : Str → Str → State → Result LoadError CertificateResource
  unfolding load_files
  load_cert_resource issuer_key names s = elim (enc.to_ascii names) [
    | none ↦ err not_ascii
    | some name ↦ load_files issuer_key name s
  ]

  -- A resource that is decoded.
  unfoldable pub decoded : CertificateResource → Result LoadError (CertificateResource × Leaf)
  unfolding parse_certs_from_pem_bundle first_leaf
  decoded res = elim (first_leaf (parse_certs_from_pem_bundle enc res.certificate_pem)) [
    | none ↦ err undecodable
    | some leaf ↦ ok (res, leaf)
  ]

  -- The loop over the issuers: what does not exist is skipped, any other error ends it.
  unfoldable pub or_skip :
      Result LoadError CertificateResource
      → Result LoadError (List (CertificateResource × Leaf))
      → Result LoadError (List (CertificateResource × Leaf))
  unfolding decoded
  or_skip (err not_exist) rest = rest
  or_skip (err e) rest = err e
  or_skip (ok res) rest = do d ← decoded res; more ← rest; ok (d ∷ more)

  unfoldable pub load_all :
      List Str → Str → State → Result LoadError (List (CertificateResource × Leaf))
  unfolding or_skip load_cert_resource
  load_all [] names s = ok []
  load_all (issuer_key ∷ issuers) names s =
      let rest = load_all issuers names s in or_skip (load_cert_resource issuer_key names s) rest

  unfoldable pub choose_newest :
      List (CertificateResource × Leaf) → Result LoadError CertificateResource
  unfolding newest
  choose_newest [] = err not_exist
  choose_newest (r ∷ rs) = ok (newest r rs).0

  -- A single issuer's resource is not decoded.
  unfoldable pub load_cert_resource_any_issuer :
      List Str → Str → State → Result LoadError CertificateResource
  unfolding load_all choose_newest load_cert_resource
  load_cert_resource_any_issuer (issuer_key ∷ []) names s = load_cert_resource issuer_key names s
  load_cert_resource_any_issuer [] names s = err no_resources
  load_cert_resource_any_issuer (k ∷ k' ∷ ks) names s =
      load_all (k ∷ k' ∷ ks) names s >>= choose_newest

  unfoldable pub storage_has_cert_resources : Str → Str → State → Bool
  unfolding exists
  storage_has_cert_resources issuer_key domain s =
      exists st s (site_cert issuer_key domain)
      && (exists st s (site_private_key issuer_key domain)
          && exists st s (site_meta issuer_key domain))

  unfoldable pub storage_has_cert_resources_any_issuer : List Str → Str → State → Bool
  unfolding storage_has_cert_resources
  storage_has_cert_resources_any_issuer [] name s = false
  storage_has_cert_resources_any_issuer (issuer_key ∷ issuers) name s =
      storage_has_cert_resources issuer_key name s
      || storage_has_cert_resources_any_issuer issuers name s

  unfoldable pub delete_each : List Str → State → State × Bool
  delete_each [] s = (s, true)
  delete_each (k ∷ ks) s =
      let (s', good) = delete k s in
      let later = delete_each ks s' in if good then later else (s', false)

  -- The files one by one, and then the folder.
  unfoldable pub delete_site_assets : Str → Str → State → State × Bool
  unfolding delete_each
  delete_site_assets issuer_key domain s =
      let (s', good) =
        delete_each
          (site_cert issuer_key domain
            ∷ site_private_key issuer_key domain
            ∷ site_meta issuer_key domain
            ∷ [])
          s in
      let later = delete (certs_site_prefix issuer_key domain) s' in
      if good then later else (s', false)

unfoldable pub lock_key : Str → Str → Str
lock_key op domain = op ++ b'_' ∷ domain

abbrev pub cert_issue_lock_op : Str
cert_issue_lock_op = codes "issue_cert"
