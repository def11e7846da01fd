-- ===== src/Cache/Capacity.antt =====
-- cache.go: the capacity of the cache.
use certmagic.Prelude.{
  ◌+◌, leb, ℕ, zero, suc, ◌≤◌, ◌<◌, ◌≡◌, refl, ◌∙◌, ap, inl, inr, true, ◌&&◌, Bool-cases,
  Option-cases, some, [], ◌∷◌, length, Str, Dict, lookup, length-insert-le, length-insert_of_some,
  length-delete-le, length-delete_of_some, arith,
}
use certmagic.Certificate.{Certificate}
use certmagic.Cache.{Cache, remove_certificate, add_tags, nth_cert, make_room, cache_certificate}
use certmagic.Cache.Invariant.{IsIndexed, nth_cert-lookup}

abbrev pub size : Cache → ℕ
size c = length c.certs

pub nth_cert-total :
    (n : ℕ) (m : Dict Certificate)
    → n < length m
    → (cert : Certificate) × (nth_cert n m ≡ some cert)
unfolding nth_cert
nth_cert-total n [] h = elim h [ ]
nth_cert-total zero ((k, cert) ∷ m) h = (cert, refl)
nth_cert-total (suc n) (e ∷ m) h = nth_cert-total n m (omega arith)

size-remove_certificate :
    (c : Cache) (cert : Certificate) (h : Str)
    → IsIndexed c
    → lookup h c.certs ≡ some cert
    → size (remove_certificate cert c) + 1 ≤ size c
unfolding remove_certificate
size-remove_certificate c cert h v e =
    length-delete_of_some cert.hash cert c.certs
      (ap (λ k. lookup k c.certs) (v.hashed h cert e) ∙ e)

size-make_room :
    (rnd : ℕ) (c : Cache)
    → IsIndexed c
    → rnd < size c
    → 0 < c.options.capacity
    → c.options.capacity ≤ size c
    → size (make_room rnd c) + 1 ≤ size c
unfolding make_room
size-make_room rnd c v drawn limited full =
    let (cert, found) = nth_cert-total rnd c.certs drawn in
    let (h, at_hash) = nth_cert-lookup rnd c.certs cert v.distinct found in
    let test : (leb 1 c.options.capacity && leb c.options.capacity (size c)) ≡ true =
      ground (arith, limited, full) in
    rw (test, found) (size-remove_certificate c cert h v at_hash)

size-make_room-le : (rnd : ℕ) (c : Cache) → size (make_room rnd c) ≤ size c
unfolding make_room remove_certificate
size-make_room-le rnd c = elim (Option-cases (nth_cert rnd c.certs)) [
  | inl missing ↦ ground (arith, missing)
  | inr (cert, found) ↦ ground (arith, found, length-delete-le cert.hash c.certs)
]

-- With a capacity that is not zero, a cache that holds no more certificates than its capacity
-- still holds no more than that after a certificate is cached. The random number is below the
-- number of cached certificates, unless there are none.
pub cache_certificate-size :
    (rnd : ℕ) (cert : Certificate) (c : Cache)
    → IsIndexed c
    → (0 < size c → rnd < size c)
    → 0 < c.options.capacity
    → size c ≤ c.options.capacity
    → size (cache_certificate rnd cert c) ≤ c.options.capacity
unfolding cache_certificate
cache_certificate-size rnd cert c v drawn limited fits =
    elim (Option-cases (lookup cert.hash c.certs)) [
      | inr (old, found) ↦
          let new = record old { tags = add_tags cert.tags old.tags } in
          rw (found, cache_certificate)
            (omega (arith, length-insert_of_some cert.hash new old c.certs found))
      | inl missing ↦
          let grown = length-insert-le cert.hash cert (make_room rnd c).certs in
          rw (missing, cache_certificate)
            (elim (Bool-cases (leb c.options.capacity (size c))) [
              | inl full ↦
                  let le : c.options.capacity ≤ size c = ground (arith, full) in
                  omega (arith, grown, size-make_room rnd c v (drawn (omega arith)) limited le)
              | inr free ↦
                  let lt : size c < c.options.capacity = ground (arith, free) in
                  omega (arith, grown, size-make_room-le rnd c)
            ])
    ]
