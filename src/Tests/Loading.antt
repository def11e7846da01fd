-- ===== src/Tests/Loading.antt =====
-- A certificate that is revoked, and one that is loaded from the storage into the cache.
use certmagic.Prelude.{
  ◌≡◌, refl, inl, true, none, some, [], ◌∷◌, Str, codes, str_eq, lookup, trim_space, to_lower, Dict,
}
use certmagic.Certificate.{TlsCertificate}
use certmagic.Certificate.Names.{join_with, split_on}
use certmagic.Cache.Invariant.{IsIndexed}
use certmagic.Storage.Keys.{safe, join_path, clean, site_cert, site_private_key, site_meta}
use certmagic.Config.Resources.{load_cert_resource}
use certmagic.Config.Revoke.{RevokingIssuer, revoke_cert, revoke_cert-deleted}
use certmagic.Config.Managed.{Making, cache_managed_certificate}
use certmagic.Config.Cached.{IsHashing, cache_managed_certificate-IsIndexed}
use certmagic.Tests.Names.{keeping}
use certmagic.Tests.Certs.{issuer}
use certmagic.Tests.Issuing.{site, enc, stored_site}
use certmagic.Tests.Caching.{tls, empty, empty-IsIndexed}

abbrev revoking : RevokingIssuer
revoking = record { issuer_key = issuer; revoke = some (λ res reason. true) }

revoked : (revoke_cert keeping enc (revoking ∷ []) site 0 stored_site).1 ≡ none
unfolding revoke_cert load_cert_resource site_cert site_private_key site_meta safe to_lower
    trim_space str_eq lookup join_with join_path clean split_on
revoked = refl

revoke_cert-deleted_example :
    (lookup (site_cert issuer site) (revoke_cert keeping enc (revoking ∷ []) site 0 stored_site).0
      ≡ none)
    × (lookup
          (site_private_key issuer site)
          (revoke_cert keeping enc (revoking ∷ []) site 0 stored_site).0
        ≡ none)
    × (lookup (site_meta issuer site) (revoke_cert keeping enc (revoking ∷ []) site 0 stored_site).0
        ≡ none)
revoke_cert-deleted_example =
    revoke_cert-deleted keeping enc (revoking ∷ []) revoking site 0 stored_site revoked (inl refl)

abbrev chained : TlsCertificate
chained = record tls { chain = codes "der" ∷ [] }

abbrev pub making : Making (Dict Str)
making = record {
  key_pair = λ cert_pem key_pem. some chained;
  parse = λ der. none;
  hash_chain = λ chain. codes "h";
  unmarshal = λ data'. none;
  staple = λ pem cert s. (s, cert);
  subject_transformer = λ name. name;
}

making-IsHashing : IsHashing keeping enc making (issuer ∷ [])
making-IsHashing = record { full = λ chain e. cc; kept = λ pem cert s. refl }

cache_managed_certificate-IsIndexed_example :
    IsIndexed
      (cache_managed_certificate keeping enc making (issuer ∷ []) 0 site (stored_site, empty)).0.1
cache_managed_certificate-IsIndexed_example =
    cache_managed_certificate-IsIndexed keeping enc making (issuer ∷ []) 0 site stored_site empty
      making-IsHashing empty-IsIndexed
