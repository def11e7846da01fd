-- ===== src/Cache/Keeps.antt =====
-- cache.go: every operation keeps the name index exact.
mod Removing
mod Adding
use certmagic.Prelude.{
  ◌⊎◌, leb, length, ℕ, zero, suc, ◌≡◌, ◌≢◌, refl, sym, ◌∙◌, ap, inl, inr, Bool, true, false, not,
  ◌&&◌, ◌||◌, Bool-cases, Option-cases, Option, none, some, List, [], ◌∷◌, ◌++◌, if◌then◌else◌, Str,
  str_eq, str_eq_iff, str_eq_refl, elem, Dict, lookup, insert, delete, lookup-insert, lookup-delete,
  arith, Result, ok, err, ℤ, pos, negsuc,
}
use certmagic.Certificate.{Certificate}
use certmagic.Cache.{
  Cache, new_cache, or_nil, or_empty, keys_of, unindex_all, index_names, remove_certificate,
  add_tags, nth_cert, make_room, cache_certificate, replace_certificate, remove, remove_managed,
}
use certmagic.Cache.Index.{keys, elem-keys-unindex_all, elem-keys-index_names}
use certmagic.Cache.Invariant.{
  carries, Distinct, IsIndexed, Distinct-delete, Distinct-insert, nth_cert-lookup, Agrees,
}
use Removing.{
  remove_certificate-IsIndexed, cached-Agrees, make_room-removes, make_room-IsIndexed,
  make_room-missing,
}
use Adding.{retagged-IsIndexed, added-IsIndexed}

-- A new cache is empty, so its index is exact.
pub new_cache-IsIndexed :
    (ocsp renew capacity : ℤ) (c : Cache) → new_cache ocsp renew capacity true ≡ ok c → IsIndexed c
new_cache-IsIndexed ocsp renew capacity c e = record {
  exact = λ n h. unfold keys_of carries lookup elem in rw empty.1 (rw empty.0);
  hashed = λ h cert found. unfold lookup in (let f = rw empty.0 at found in cc);
  not_blank = unfold lookup in rw empty.0;
  distinct = rw empty.0 tt;
}
  where
    empty : (c.certs ≡ []) × (c.index ≡ [])
    empty = unfold new_cache in ground (arith, e)

-- Caching a certificate whose hash is not empty keeps the index exact, whether it is cached
-- already, fits in, or takes the place of another.
pub cache_certificate-IsIndexed :
    (rnd : ℕ) (cert : Certificate) (c : Cache)
    → IsIndexed c
    → cert.hash ≢ []
    → IsIndexed (cache_certificate rnd cert c)
unfolding cache_certificate
cache_certificate-IsIndexed rnd cert c v full = elim (Option-cases (lookup cert.hash c.certs)) [
  | inl missing ↦
      rw (missing, cache_certificate)
        (added-IsIndexed (make_room rnd c) cert (make_room-IsIndexed rnd c v) full
          (make_room-missing rnd c cert.hash v missing))
  | inr (old, found) ↦
      rw (found, cache_certificate)
        (retagged-IsIndexed c cert.hash old (add_tags cert.tags old.tags) v found)
]

-- Replacing a certificate keeps the index exact, if the old one has the names that are cached for
-- its hash and the new one's hash is not empty.
pub replace_certificate-IsIndexed :
    (rnd : ℕ) (old new : Certificate) (c : Cache)
    → IsIndexed c
    → Agrees c old
    → new.hash ≢ []
    → IsIndexed (replace_certificate rnd old new c)
unfolding replace_certificate
replace_certificate-IsIndexed rnd old new c v agrees full =
    cache_certificate-IsIndexed rnd new (remove_certificate old c)
      (remove_certificate-IsIndexed c old v agrees) full

-- Removing by hash keeps the index exact, whatever the hashes are, unknown ones included.
pub remove-IsIndexed : (hs : List Str) (c : Cache) → IsIndexed c → IsIndexed (remove hs c)
unfolding remove
remove-IsIndexed [] c v = v
remove-IsIndexed (h ∷ hs) c v =
    remove-IsIndexed hs (remove_certificate (or_empty (lookup h c.certs)) c) (
      remove_certificate-IsIndexed c (or_empty (lookup h c.certs)) v
        (agrees (lookup h c.certs) refl))
  where
    agrees : (found : Option Certificate) → lookup h c.certs ≡ found → Agrees c (or_empty found)
    agrees none e old q = let p = v.not_blank in cc (p, q)
    agrees (some cert) e old q = cached-Agrees c h cert v e old q
