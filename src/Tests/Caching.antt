-- ===== src/Tests/Caching.antt =====
-- The cache and the choice of a certificate, on a cache of two certificates.
use certmagic.Prelude.{
  ◌*◌, Bool-cases, ◌≤◌, ◌<◌, ◌≡◌, ◌↔◌, ◌⊎◌, refl, inl, inr, true, none, some, List, [], ◌∷◌, length,
  Str, codes, str_eq, to_lower, trim_space, Among, lookup, insert, arith, ok, pos, negsuc,
}
use certmagic.Certificate.{expires_at, Leaf, TlsCertificate, Certificate, empty_certificate, second}
use certmagic.Certificate.Names.{wildcards, split_on, join_with}
use certmagic.Cache.{
  Cache, SubjectIssuer, new_cache, keys_of, index_names, make_room, cache_certificate, certs_at,
  get_all_matching_certs, remove_managed,
}
use certmagic.Cache.Invariant.{IsIndexed}
use certmagic.Cache.Capacity.{size, cache_certificate-size}
use certmagic.Cache.Lookup.{IsCached, get_all_matching_certs_iff}
use certmagic.Cache.Keeps.{new_cache-IsIndexed, cache_certificate-IsIndexed}
use certmagic.Cache.Removal.{kept, remove_managed_lem}
use certmagic.Handshake.{
  ClientHello, SelectionConfig, matched, normalized_name, default_certificate_selector,
  get_certificate_from_cache, is_current,
}
use certmagic.Handshake.Selector.{IsUsable, default_certificate_selector_lem}
use certmagic.Handshake.Choice.{AllHaveLeaf, get_certificate_from_cache_lem}

abbrev pub leaf : Leaf
leaf = record {
  not_before = second;
  not_after = 100 * second;
  common_name = [];
  dns_names = codes "example.com" ∷ [];
  ip_addresses = [];
  email_addresses = [];
  uris = [];
}

abbrev pub tls : TlsCertificate
tls = record { chain = []; leaf = some leaf }

abbrev pub plain : Certificate
plain = record empty_certificate {
  tls = tls;
  names = codes "example.com" ∷ codes "a.example.com" ∷ [];
  hash = codes "h1";
  managed = true;
  issuer_key = codes "acme";
}

abbrev wild : Certificate
wild = record plain {
  names = codes "*.example.com" ∷ codes "a.example.com" ∷ [];
  hash = codes "h2";
}

abbrev pub empty : Cache
empty = record {
  options = record {
    ocsp_check_interval = 3600000000000;
    renew_check_interval = 600000000000;
    capacity = 2;
  };
  certs = [];
  index = [];
}

empty_new : new_cache (pos 0) (negsuc 4) (pos 2) true ≡ ok empty
unfolding new_cache
empty_new = refl

pub empty-IsIndexed : IsIndexed empty
empty-IsIndexed = new_cache-IsIndexed (pos 0) (negsuc 4) (pos 2) empty empty_new

abbrev pub one : Cache
one = cache_certificate 0 plain empty

abbrev two : Cache
two = cache_certificate 0 wild one

one-IsIndexed : IsIndexed one
one-IsIndexed = cache_certificate-IsIndexed 0 plain empty empty-IsIndexed (λ e. cc)

two-IsIndexed : IsIndexed two
two-IsIndexed = cache_certificate-IsIndexed 0 wild one one-IsIndexed (λ e. cc)

two_index :
    two.index
    ≡ (codes "example.com", codes "h1" ∷ [])
      ∷ (codes "a.example.com", codes "h1" ∷ codes "h2" ∷ [])
      ∷ (codes "*.example.com", codes "h2" ∷ [])
      ∷ []
unfolding cache_certificate lookup insert make_room index_names str_eq
two_index = refl

cache_certificate-IsIndexed_example : IsIndexed (cache_certificate 0 wild one)
cache_certificate-IsIndexed_example = cache_certificate-IsIndexed 0 wild one one-IsIndexed (λ e. cc)

abbrev third : Certificate
third = record plain { names = codes "other.org" ∷ []; hash = codes "h3" }

two-size : size two ≡ 2
unfolding cache_certificate lookup insert make_room str_eq
two-size = refl

two_capacity : two.options.capacity ≡ 2
unfolding cache_certificate lookup make_room str_eq insert
two_capacity = refl

cache_certificate-size_example : size (cache_certificate 1 third two) ≤ two.options.capacity
cache_certificate-size_example =
    cache_certificate-size 1 third two two-IsIndexed (λ some_cached. omega (arith, two-size))
      (omega (arith, two_capacity)) (omega (arith, two-size, two_capacity))

abbrev asked : List SubjectIssuer
asked = record { subject = codes "*.example.com"; issuer_key = codes "acme" } ∷ []

remove_managed_lem_example :
    lookup (codes "h2") (remove_managed asked two).certs
    ≡ kept asked (lookup (codes "h2") two.certs)
remove_managed_lem_example = remove_managed_lem (codes "h2") asked two two-IsIndexed

get_all_matching_certs_iff_example :
    Among wild (get_all_matching_certs two (codes "a.example.com"))
    ↔ IsCached two (codes "a.example.com") wild
get_all_matching_certs_iff_example =
    get_all_matching_certs_iff two (codes "a.example.com") wild two-IsIndexed

abbrev retagged : Certificate
retagged = record wild { tags = codes "new" ∷ [] }

abbrev pub hello : ClientHello
hello = record {
  server_name = codes " B.example.com";
  local_addr = none;
  supports = λ cert. str_eq cert.hash (codes "h2");
}

abbrev pub cfg : SelectionConfig
cfg = record { default_server_name = []; fallback_server_name = []; cert_selection = none }

default_certificate_selector_lem_example :
    (cert : Certificate) × (default_certificate_selector hello (2 * second) (plain ∷ wild ∷ [])
      ≡ ok (some cert))
    × Among cert (plain ∷ wild ∷ [])
    × ((other : Certificate)
        → 1 < length (plain ∷ wild ∷ [])
        → Among other (plain ∷ wild ∷ [])
        → IsUsable hello (2 * second) other
        → IsUsable hello (2 * second) cert)
default_certificate_selector_lem_example =
    default_certificate_selector_lem hello (2 * second) (plain ∷ wild ∷ [])
      ((leaf, refl), ((leaf, refl), tt)) (λ e. cc)

wild-IsUsable : IsUsable hello (2 * second) wild
unfolding str_eq is_current expires_at
wild-IsUsable = record { supported = refl; current = (leaf, refl, refl) }

two-AllHaveLeaf : AllHaveLeaf two
unfolding get_all_matching_certs keys_of certs_at cache_certificate lookup insert make_room
    index_names str_eq
two-AllHaveLeaf name = elim (Bool-cases (str_eq (codes "example.com") name)) [
  | inl e ↦ rw e ((leaf, refl), tt)
  | inr e ↦ elim (Bool-cases (str_eq (codes "a.example.com") name)) [
    | inl e' ↦ rw (e, e') ((leaf, refl), ((leaf, refl), tt))
    | inr e' ↦ elim (Bool-cases (str_eq (codes "*.example.com") name)) [
      | inl e'' ↦ rw (e, e', e'') ((leaf, refl), tt)
      | inr e'' ↦ rw (e, e', e'') tt
    ]
  ]
]

-- The name has no certificate of its own.
by_wildcard :
    get_certificate_from_cache (λ addr. none) cfg two hello (2 * second) ≡ ok (matched wild)
unfolding get_certificate_from_cache cache_certificate lookup insert make_room index_names str_eq
    normalized_name to_lower trim_space default_certificate_selector get_all_matching_certs
    wildcards split_on join_with
by_wildcard = refl

get_certificate_from_cache_lem_example :
    (((n : Str) × (cert : Certificate) × Among n
          (normalized_name hello.server_name ∷ wildcards (normalized_name hello.server_name))
        × (get_certificate_from_cache (λ addr. none) cfg two hello (2 * second) ≡ ok (matched cert))
        × IsCached two n cert)
      ⊎ (((n : Str) (cert : Certificate)
          → Among n
              (normalized_name hello.server_name ∷ wildcards (normalized_name hello.server_name))
          → IsCached two n cert
          → ⊥)))
    × ((exact : Certificate)
        → IsCached two (normalized_name hello.server_name) exact
        → (cert : Certificate) × (get_certificate_from_cache
              (λ addr. none)
              cfg
              two
              hello
              (2 * second)
            ≡ ok (matched cert))
          × IsCached two (normalized_name hello.server_name) cert)
unfolding normalized_name to_lower trim_space
get_certificate_from_cache_lem_example =
    get_certificate_from_cache_lem cfg two hello (2 * second) (λ addr. none) refl two-IsIndexed
      two-AllHaveLeaf (λ e. cc)
