-- ===== src/Cache/Removal.antt =====
-- cache.go: what Remove and RemoveManaged take out of the cache.
use certmagic.Prelude.{
  ◌≡◌, refl, ◌∙◌, ap, inl, inr, Bool, false, ◌&&◌, ◌||◌, Bool-cases, Option, none, some, List, [],
  ◌∷◌, if◌then◌else◌, Str, str_eq, str_eq_iff, elem, lookup, lookup-delete, arith,
}
use certmagic.Certificate.{Certificate}
use certmagic.Cache.{
  Cache, SubjectIssuer, or_empty, keys_of, certs_at, get_all_matching_certs, remove_certificate,
  remove, managed_hashes, delete_queue, remove_managed,
}
use certmagic.Cache.Index.{elem-append}
use certmagic.Cache.Invariant.{carries, IsIndexed}
use certmagic.Cache.Keeps.{remove-IsIndexed}

lookup-remove_one :
    (k h : Str) (c : Cache)
    → IsIndexed c
    → lookup k (remove_certificate (or_empty (lookup h c.certs)) c).certs
      ≡ (if str_eq k h then none else lookup k c.certs)
unfolding remove_certificate
lookup-remove_one k h c v = go (lookup h c.certs) refl
  where
    go :
        (found : Option Certificate)
        → lookup h c.certs ≡ found
        → lookup k (remove_certificate (or_empty found) c).certs
          ≡ (if str_eq k h then none else lookup k c.certs)
    go none e = lookup-delete k [] c.certs ∙ elim (Bool-cases (str_eq k h)) [
      | inl same ↦
          let s = (str_eq_iff k h).0 same in
          ground (arith, same, v.not_blank, ap (λ j. lookup j c.certs) s, e)
      | inr other ↦ ground (arith, other, v.not_blank, str_eq_iff [] k)
    ]
    go (some cert) e =
        lookup-delete k cert.hash c.certs
        ∙ ap (λ b. if b then none else lookup k c.certs) (flip cert.hash (v.hashed h cert e))
      where
        flip : (j : Str) → j ≡ h → str_eq j k ≡ str_eq k h
        flip j same = ground (arith, same, str_eq_iff j k, str_eq_iff k h)

-- Removing by hash removes the entries of exactly those hashes.
pub lookup-remove :
    (k : Str) (hs : List Str) (c : Cache)
    → IsIndexed c
    → lookup k (remove hs c).certs ≡ (if elem k hs then none else lookup k c.certs)
unfolding remove elem
lookup-remove k [] c v = refl
lookup-remove k (h ∷ hs) c v =
    let next = remove_certificate (or_empty (lookup h c.certs)) c in
    let kept : IsIndexed next = unfold remove in remove-IsIndexed (h ∷ []) c v in
    ground (arith, lookup-remove k hs next kept, lookup-remove_one k h c v)

-- Whether RemoveManaged is asked to remove a certificate for one of the subjects.
unfoldable pub asks : SubjectIssuer → Certificate → Bool
asks s cert =
    cert.managed
    && (elem s.subject cert.names
        && (str_eq s.issuer_key [] || str_eq cert.issuer_key s.issuer_key))

unfoldable pub targeted : List SubjectIssuer → Certificate → Bool
unfolding asks
targeted [] cert = false
targeted (s ∷ subjects) cert = asks s cert || targeted subjects cert

chosen : Str → Option Certificate → Bool
chosen issuer none = false
chosen issuer (some cert) = cert.managed && (str_eq issuer [] || str_eq cert.issuer_key issuer)

elem-managed_hashes :
    (k issuer : Str) (hs : List Str) (c : Cache)
    → IsIndexed c
    → elem k (managed_hashes issuer (certs_at c hs))
      ≡ (elem k hs && chosen issuer (lookup k c.certs))
unfolding managed_hashes certs_at elem
elem-managed_hashes k issuer [] c v = refl
elem-managed_hashes k issuer (h ∷ hs) c v =
    go (lookup h c.certs) refl (elem-managed_hashes k issuer hs c v)
  where
    go :
        (found : Option Certificate)
        → lookup h c.certs ≡ found
        → elem k (managed_hashes issuer (certs_at c hs))
          ≡ (elem k hs && chosen issuer (lookup k c.certs))
        → elem k (managed_hashes issuer (or_empty found ∷ certs_at c hs))
          ≡ ((str_eq k h || elem k hs) && chosen issuer (lookup k c.certs))
    go none e ih = elim (Bool-cases (str_eq k h)) [
      | inl same ↦
          let s = (str_eq_iff k h).0 same in
          unfold chosen in ground (arith, ih, same, ap (λ j. lookup j c.certs) s, e)
      | inr other ↦ ground (arith, ih, other)
    ]
    go (some cert) e ih =
        let hash = v.hashed h cert e in
        elim (Bool-cases (str_eq k h)) [
          | inl same ↦
              let s = (str_eq_iff k h).0 same in
              unfold chosen in
              ground
                (arith, ih, same, ap (λ j. lookup j c.certs) s, e, hash, str_eq_iff k cert.hash)
          | inr other ↦ ground (arith, ih, other, hash, str_eq_iff k cert.hash)
        ]

-- What is left of an entry.
unfoldable pub kept : List SubjectIssuer → Option Certificate → Option Certificate
kept subjects none = none
kept subjects (some cert) = if targeted subjects cert then none else some cert

is_targeted : List SubjectIssuer → Option Certificate → Bool
is_targeted subjects none = false
is_targeted subjects (some cert) = targeted subjects cert

elem-delete_queue :
    (k : Str) (subjects : List SubjectIssuer) (c : Cache)
    → IsIndexed c
    → elem k (delete_queue c subjects) ≡ is_targeted subjects (lookup k c.certs)
unfolding delete_queue get_all_matching_certs is_targeted elem
elem-delete_queue k [] c v = none_asked (lookup k c.certs)
  where
    none_asked : (o : Option Certificate) → false ≡ is_targeted [] o
    none_asked none = refl
    none_asked (some cert) = unfold is_targeted targeted in refl
elem-delete_queue k (s ∷ subjects) c v =
    elem-append k (managed_hashes s.issuer_key (certs_at c (keys_of c s.subject)))
      (delete_queue c subjects)
    ∙ rw
        (
          elem-managed_hashes k s.issuer_key (keys_of c s.subject) c v,
          elem-delete_queue k subjects c v,
          v.exact s.subject k,
        )
        (asked (lookup k c.certs))
  where
    asked :
        (o : Option Certificate)
        → ((carries o s.subject && chosen s.issuer_key o) || is_targeted subjects o)
          ≡ is_targeted (s ∷ subjects) o
    asked none = unfold carries is_targeted in refl
    asked (some cert) = unfold carries chosen is_targeted targeted in ground arith

-- In a cache with an exact index RemoveManaged removes exactly the managed certificates that carry
-- one of the subjects and, where an issuer stands beside that subject, come from that issuer; every
-- other entry stays as it is.
pub remove_managed_lem :
    (k : Str) (subjects : List SubjectIssuer) (c : Cache)
    → IsIndexed c
    → lookup k (remove_managed subjects c).certs ≡ kept subjects (lookup k c.certs)
unfolding remove_managed
remove_managed_lem k subjects c v =
    lookup-remove k (delete_queue c subjects) c v
    ∙ rw (elem-delete_queue k subjects c v) (left (lookup k c.certs))
  where
    left : (o : Option Certificate) → (if is_targeted subjects o then none else o) ≡ kept subjects o
    left none = unfold is_targeted kept in refl
    left (some cert) = unfold is_targeted kept in refl
