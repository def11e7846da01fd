-- ===== src/Cache.antt =====
-- cache.go: the certificates in memory, by hash, and the index from names to hashes. The locks
-- that guard the two maps are taken for whole operations, so an operation is one function.
pub mod Index
pub mod Invariant
pub mod Keeps
pub mod Capacity
pub mod Lookup
pub mod Removal
use certmagic.Prelude.{
  ℕ, zero, suc, ◌+◌, Bool, true, false, not, ◌&&◌, ◌||◌, Option, none, some, List, [], ◌∷◌, ◌++◌,
  map, ltb, leb, if◌then◌else◌, length, Str, str_eq, Dict, lookup, insert, delete, Result, ok, err,
  ℤ, pos, negsuc,
}
use certmagic.Certificate.{Certificate, empty_certificate, has_tag_in}
use certmagic.Certificate.Names.{wildcards}

pub record CacheOptions : Type 0 where
  pub ocsp_check_interval : ℕ
  pub renew_check_interval : ℕ
  pub capacity : ℕ

pub record Cache : Type 0 where
  pub options : CacheOptions
  pub certs : Dict Certificate
  pub index : Dict (List Str)

abbrev default_ocsp_check_interval : ℕ
default_ocsp_check_interval = 3600000000000

abbrev default_renew_check_interval : ℕ
default_renew_check_interval = 600000000000

-- An interval or a capacity as it is given, which may be negative.
non_negative : ℤ → ℕ
non_negative (pos n) = n
non_negative (negsuc n) = 0

positive_or : ℕ → ℤ → ℕ
positive_or d (pos (suc n)) = suc n
positive_or d _ = d

pub data CachePanic : Type 0 where
  no_config_getter : CachePanic

-- The callback that gets a config is given or not; the maintenance goroutine is not part of this.
unfoldable pub new_cache : (ocsp renew capacity : ℤ) (has_getter : Bool) → Result CachePanic Cache
unfolding non_negative positive_or
new_cache ocsp renew capacity has_getter =
    if not has_getter
    then err no_config_getter
    else ok (record {
      options = record {
        ocsp_check_interval = positive_or default_ocsp_check_interval ocsp;
        renew_check_interval = positive_or default_renew_check_interval renew;
        capacity = non_negative capacity;
      };
      certs = [];
      index = [];
    })

pub set_options : CacheOptions → Cache → Cache
set_options opts c = record c { options = opts }

abbrev pub or_nil : Option (List Str) → List Str
or_nil none = []
or_nil (some l) = l

-- certCache.cacheIndex[name]
unfoldable pub keys_of : Cache → Str → List Str
keys_of c name = or_nil (lookup name c.index)

-- The loop that drops every occurrence of a hash from a list of keys.
unfoldable pub without : Str → List Str → List Str
without h [] = []
without h (k ∷ ks) = let rest = without h ks in if str_eq k h then rest else k ∷ rest

-- One round of the loop of removeCertificate.
unfoldable pub unindex : Str → Str → Dict (List Str) → Dict (List Str)
unfolding without
unindex h name index =
    let left = without h (or_nil (lookup name index)) in
    elim left [ [] ↦ delete name index | k ∷ ks ↦ insert name (k ∷ ks) index ]

unfoldable pub unindex_all : Str → List Str → Dict (List Str) → Dict (List Str)
unfolding unindex
unindex_all h [] index = index
unindex_all h (name ∷ names) index = unindex_all h names (unindex h name index)

unfoldable pub remove_certificate : Certificate → Cache → Cache
unfolding unindex_all
remove_certificate cert c = record c {
  certs = delete cert.hash c.certs;
  index = unindex_all cert.hash cert.names c.index;
}

-- The loop that appends the tags that the cached certificate does not have.
unfoldable pub add_tags : List Str → List Str → List Str
add_tags [] old = old
add_tags (tag ∷ tags) old = add_tags tags (if has_tag_in tag old then old else old ++ tag ∷ [])

unfoldable pub index_names : Str → List Str → Dict (List Str) → Dict (List Str)
index_names h [] index = index
index_names h (name ∷ names) index =
    index_names h names (insert name (or_nil (lookup name index) ++ h ∷ []) index)

-- The entry that the loop over the map stops at, `rnd` entries after its start.
unfoldable pub nth_cert : ℕ → Dict Certificate → Option Certificate
nth_cert n [] = none
nth_cert zero ((h, cert) ∷ m) = some cert
nth_cert (suc n) (e ∷ m) = nth_cert n m

-- `rnd` is what weakrand.Intn gives.
unfoldable pub make_room : ℕ → Cache → Cache
unfolding nth_cert remove_certificate
make_room rnd c =
    let capacity = c.options.capacity in
    if leb 1 capacity && leb capacity (length c.certs)
    then elim (nth_cert rnd c.certs) [ none ↦ c | some cert ↦ remove_certificate cert c ]
    else c

unfoldable pub cache_certificate : ℕ → Certificate → Cache → Cache
unfolding add_tags make_room index_names
cache_certificate rnd cert c = elim (lookup cert.hash c.certs) [
  | some existing ↦ record c {
    certs = insert cert.hash (record existing { tags = add_tags cert.tags existing.tags }) c.certs;
  }
  | none ↦
      let room = make_room rnd c in
      record room {
        certs = insert cert.hash cert room.certs;
        index = index_names cert.hash cert.names room.index;
      }
]

pub replace_certificate : ℕ → Certificate → Certificate → Cache → Cache
unfolding remove_certificate cache_certificate
replace_certificate rnd old new c = cache_certificate rnd new (remove_certificate old c)

abbrev or_empty : Option Certificate → Certificate
or_empty none = empty_certificate
or_empty (some cert) = cert

unfoldable pub certs_at : Cache → List Str → List Certificate
certs_at c [] = []
certs_at c (h ∷ hs) = or_empty (lookup h c.certs) ∷ certs_at c hs

unfoldable pub get_all_matching_certs : Cache → Str → List Certificate
unfolding certs_at keys_of
get_all_matching_certs c subject = certs_at c (keys_of c subject)

pub get_all_certs : Cache → List Certificate
get_all_certs c = map (λ e. e.1) c.certs

matching_each : Cache → List Str → List Certificate
matching_each c [] = []
matching_each c (name ∷ names) = get_all_matching_certs c name ++ matching_each c names

pub all_matching_certificates : Cache → Str → List Certificate
unfolding matching_each get_all_matching_certs
all_matching_certificates c name = get_all_matching_certs c name ++ matching_each c (wildcards name)

-- Remove: an unknown hash removes the empty certificate, whose hash and names are empty.
pub remove : List Str → Cache → Cache
unfolding remove_certificate
remove [] c = c
remove (h ∷ hs) c = remove hs (remove_certificate (or_empty (lookup h c.certs)) c)

pub record SubjectIssuer : Type 0 where
  pub subject : Str
  pub issuer_key : Str

-- The inner loop of RemoveManaged.
pub managed_hashes : Str → List Certificate → List Str
managed_hashes issuer [] = []
managed_hashes issuer (cert ∷ certs) =
    let rest = managed_hashes issuer certs in
    if cert.managed && (str_eq issuer [] || str_eq cert.issuer_key issuer)
    then cert.hash ∷ rest
    else rest

pub delete_queue : Cache → List SubjectIssuer → List Str
unfolding managed_hashes get_all_matching_certs
delete_queue c [] = []
delete_queue c (s ∷ subjects) =
    managed_hashes s.issuer_key (get_all_matching_certs c s.subject) ++ delete_queue c subjects

pub remove_managed : List SubjectIssuer → Cache → Cache
unfolding delete_queue remove
remove_managed subjects c = remove (delete_queue c subjects) c
