-- ===== src/Tests/Issuing.antt =====
-- Obtaining a certificate, with a storage that keeps everything and one issuer.
use certmagic.Prelude.{
  ◌≡◌, inl, inr, refl, ap, sym, ◌∙◌, true, false, Bool-cases, Option, none, some, List, [], ◌∷◌,
  if◌then◌else◌, Str, codes, str_eq, str_eq_iff, trim_space, to_lower, contains_byte, ok, ◌==◌,
  Dict, lookup, arith,
}
use certmagic.Certificate.Names.{join_with, split_on}
use certmagic.Storage.Keys.{safe, join_path, clean, site_cert, site_private_key, site_meta}
use certmagic.Storage.Paths.{IsRegular}
use certmagic.Storage.Store.{store_tx}
use certmagic.Config.Csr.{
  Csr, blank_csr, Naming, generate_csr, add_identifiers, names_from_csr, names_key,
}
use certmagic.Config.Resources.{
  CertificateResource, Encoding, save_cert_resource, load_cert_resource,
  storage_has_cert_resources_any_issuer, lock_key,
}
use certmagic.Config.Stored.{load_cert_resource-save}
use certmagic.Config.Issuing.{is_other, Issuer, Config, check_storage, keys_of_issuers}
use certmagic.Config.Obtain.{LockAnswers, obtain_cert}
use certmagic.Config.Results.{IsOrderly}
use certmagic.Config.Repeated.{obtain_cert-again, obtain_cert-locks, check_storage-deleted}
use certmagic.Tests.Names.{keeping}
use certmagic.Tests.Certs.{issuer, issuer-IsRegular}

abbrev pub site : Str
site = codes "example.com"

site-IsRegular : IsRegular site
unfolding safe to_lower trim_space
site-IsRegular = record { full = λ e. cc; not_here = λ e. ground arith; not_up = λ e. ground arith }

-- An object is indented after its brace.
abbrev pub indented : Str → Str
indented [] = []
indented (c ∷ cs) =
    let rest = indented cs in if c == b'{' then c ∷ b'\n' ∷ b'\t' ∷ rest else c ∷ rest

-- Metadata of the one site, which is the issuer's data, indented.
abbrev pub encode_meta : List Str → Str → Option Str
encode_meta (s ∷ []) data' = if str_eq s site then some (indented data') else none
encode_meta _ data' = none

abbrev pub enc : Encoding
enc = record {
  encode = encode_meta;
  decode = λ meta. some (site ∷ [], meta);
  to_ascii = some;
  blocks = λ bundle. [];
  parse_der = λ der. none;
}

undoes :
    (sans : List Str) (data' meta : Str)
    → enc.encode sans data' ≡ some meta
    → enc.decode meta ≡ some (sans, indented data')
undoes [] data' meta h = cc
undoes (s ∷ []) data' meta h = elim (Bool-cases (str_eq s site)) [
  | inr other ↦ let q = rw other at h in cc
  | inl same ↦
      let q : some (indented data') ≡ some meta = (rw same at h) in
      let e = (str_eq_iff s site).0 same in cc
]
undoes (s ∷ t ∷ ss) data' meta h = cc

abbrev res : CertificateResource
res = record {
  sans = site ∷ [];
  certificate_pem = codes "cert";
  private_key_pem = codes "key";
  issuer_data = codes "{url}";
  issuer_key = [];
}

site_key : names_key (site ∷ []) ≡ site
unfolding names_key
site_key = refl

names_key-IsRegular : IsRegular (names_key res.sans)
names_key-IsRegular = rw site_key site-IsRegular

res_saved : (save_cert_resource keeping enc issuer res []).1 ≡ none
unfolding save_cert_resource store_tx str_eq
res_saved = refl

load_cert_resource-save_example :
    load_cert_resource keeping enc issuer
      (names_key res.sans)
      (save_cert_resource keeping enc issuer res []).0
    ≡ ok (record res { issuer_key = issuer; issuer_data = indented (codes "{url}") })
load_cert_resource-save_example =
    load_cert_resource-save keeping enc issuer res [] indented undoes issuer-IsRegular
      names_key-IsRegular refl (λ k. refl) res_saved

abbrev pub naming : Naming
naming = record {
  to_ascii = some;
  parse_ip = λ s. none;
  parse_url = λ s. none;
  created = λ key csr. true;
}

abbrev pub certificate_authority : Issuer (Dict Str)
certificate_authority = record {
  issuer_key = issuer;
  ca = some (codes "https://ca");
  pre_check = λ now names interactive. none;
  issue =
      λ now replaces csr s. (s, ok (record { certificate = codes "cert"; metadata = codes "m" }));
}

abbrev pub cfg : Config (Dict Str)
cfg = record {
  issuers = certificate_authority ∷ [];
  subject_transformer = λ name. name;
  disable_storage_check = false;
  reuse_private_keys = false;
  use_first_random_issuer = false;
  must_staple = false;
  disable_ari = false;
  on_event = λ now event. none;
  shuffle = λ now issuers. issuers;
  generate_key = λ now. ok (codes "key");
  load_failure = λ e. is_other 0;
  decodes_key = λ pem. true;
  test_key = codes "rw_test_1";
  test_contents = codes "x";
}

abbrev pub site_csr : Csr
site_csr = record blank_csr { dns_names = site ∷ [] }

site_request : (key : Str) → generate_csr naming false key (site ∷ []) false ≡ ok site_csr
unfolding generate_csr add_identifiers contains_byte
site_request key = refl

site_requested :
    (key : Str) (csr : Csr)
    → generate_csr naming false key (site ∷ []) false ≡ ok csr
    → csr ≡ site_csr
site_requested key csr h = let q = sym (site_request key) ∙ h in cc

site_names : names_key (names_from_csr site_csr) ≡ site
unfolding names_key names_from_csr str_eq
site_names = refl

canonical :
    (key : Str) (csr : Csr)
    → generate_csr naming false key (site ∷ []) false ≡ ok csr
    → names_key (names_from_csr csr) ≡ site
canonical key csr h = ap (λ c. names_key (names_from_csr c)) (site_requested key csr h) ∙ site_names

pub IsOrderly-site : IsOrderly keeping enc naming cfg site
IsOrderly-site = record {
  issuers_regular = λ i a. elim a [ inl e ↦ rw e issuer-IsRegular | inr b ↦ absurd b ];
  names_regular = λ key csr h. rw (canonical key csr h) site-IsRegular;
  shuffle_within = λ now issuers i a. a;
}

abbrev pub answers : LockAnswers
answers = record { storage = 1; locked = true; unlocked = true }

abbrev pub stored_site : Dict Str
stored_site =
    (codes "certificates/acme/example.com/example.com.key", codes "key")
    ∷ (codes "certificates/acme/example.com/example.com.crt", codes "cert")
    ∷ (codes "certificates/acme/example.com/example.com.json", codes "m")
    ∷ []

site_stored :
    storage_has_cert_resources_any_issuer keeping enc (keys_of_issuers cfg.issuers) site stored_site
    ≡ true
unfolding storage_has_cert_resources_any_issuer keys_of_issuers site_cert site_private_key site_meta
    safe to_lower trim_space str_eq lookup join_with join_path clean split_on
site_stored = refl

obtain_cert-again_example :
    obtain_cert keeping enc naming cfg answers site false 0 [] (stored_site, [])
    ≡ ((stored_site, []), none)
obtain_cert-again_example =
    obtain_cert-again keeping enc naming cfg answers site false 0 [] stored_site [] canonical
      (λ k. refl) (inl site_stored) (λ e. cc)

obtain_cert-locks_example :
    lookup site (obtain_cert keeping enc naming cfg answers site true 0 [] ([], (site, 5) ∷ [])).0.1
    ≡ lookup site ((site, 5) ∷ [])
unfolding lookup str_eq lock_key
obtain_cert-locks_example =
    obtain_cert-locks keeping enc naming cfg answers site true 0 [] [] ((site, 5) ∷ []) site refl
      refl

check_storage-deleted_example : (check_storage keeping cfg []).1 ≡ none
check_storage-deleted_example = check_storage-deleted keeping cfg [] refl refl
