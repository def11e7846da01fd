-- ===== src/Cache/Lookup.antt =====
-- cache.go: what the lookups by name give.
use certmagic.Prelude.{
  ◌⊎◌, ℕ, ◌≡◌, ◌↔◌, refl, sym, ◌∙◌, ap, inl, inr, true, ◌||◌, Bool-cases, Option-cases, Option,
  none, some, List, [], ◌∷◌, ◌++◌, if◌then◌else◌, Str, str_eq, str_eq_iff, str_eq_refl, elem, Among,
  lookup, lookup-insert, arith,
}
use certmagic.Certificate.{Certificate, has_tag, has_tag_in}
use certmagic.Cache.{
  Cache, or_empty, keys_of, certs_at, get_all_matching_certs, add_tags, cache_certificate,
}
use certmagic.Cache.Invariant.{carries, IsIndexed}

-- A certificate that is in the cache and carries a name.
pub record IsCached (c : Cache) (name : Str) (cert : Certificate) : Type 0 where
  pub found : lookup cert.hash c.certs ≡ some cert
  pub named : elem name cert.names ≡ true

certs_at-found :
    (c : Cache) (name : Str) (hs : List Str) (cert : Certificate)
    → IsIndexed c
    → ((h : Str) → elem h hs ≡ true → carries (lookup h c.certs) name ≡ true)
    → Among cert (certs_at c hs)
    → IsCached c name cert
unfolding certs_at
certs_at-found c name [] cert v all m = absurd m
certs_at-found c name (h ∷ hs) cert v all (inl here) =
    at (lookup h c.certs) refl (all h (unfold elem in rw (str_eq_refl h)))
  where
    carried : (x : Certificate) → carries (some x) name ≡ true → elem name x.names ≡ true
    carried x e = unfold carries in e

    at :
        (o : Option Certificate)
        → lookup h c.certs ≡ o
        → carries (lookup h c.certs) name ≡ true
        → IsCached c name cert
    at none e k = unfold carries in (let q = rw e at k in cc)
    at (some x) e k =
        let same : cert ≡ x = here ∙ ap or_empty e in
        record {
          found =
              ap (λ j. lookup j c.certs) (ap (λ y. y.hash) same ∙ v.hashed h x e)
              ∙ e
              ∙ ap some (sym same);
          named =
              ap (λ y. elem name y.names) same ∙ carried x (ap (λ o. carries o name) (sym e) ∙ k);
        }
certs_at-found c name (h ∷ hs) cert v all (inr there) =
    certs_at-found c name hs cert v (λ k e. all k (unfold elem in ground (arith, e))) there

certs_at-contains :
    (c : Cache) (h : Str) (hs : List Str) (cert : Certificate)
    → elem h hs ≡ true
    → lookup h c.certs ≡ some cert
    → Among cert (certs_at c hs)
unfolding certs_at elem
certs_at-contains c h [] cert e found = absurd (ground arith)
certs_at-contains c h (k ∷ hs) cert e found = elim (Bool-cases (str_eq h k)) [
  | inl same ↦ inl (sym (ap or_empty (rw ((str_eq_iff h k).0 same) at found)))
  | inr other ↦ inr (certs_at-contains c h hs cert (ground (arith, e, other)) found)
]

-- In a cache with an exact index the lookup by name gives exactly the cached certificates that
-- carry the name.
pub get_all_matching_certs_iff :
    (c : Cache) (name : Str) (cert : Certificate)
    → IsIndexed c
    → Among cert (get_all_matching_certs c name) ↔ IsCached c name cert
unfolding get_all_matching_certs
get_all_matching_certs_iff c name cert v = (
  certs_at-found c name (keys_of c name) cert v (λ h e. sym (v.exact name h) ∙ e),
  λ k.
      certs_at-contains c cert.hash (keys_of c name) cert
        (v.exact name cert.hash ∙ rw k.found (unfold carries in k.named)) k.found,
)

has_tag_in-append :
    (t : Str) (xs : List Str) (u : Str)
    → has_tag_in t (xs ++ u ∷ []) ≡ (has_tag_in t xs || str_eq u t)
unfolding has_tag_in
has_tag_in-append t [] u = ground arith
has_tag_in-append t (x ∷ xs) u = ground (arith, has_tag_in-append t xs u)

has_tag_in-add_tags :
    (t : Str) (tags old : List Str)
    → has_tag_in t (add_tags tags old) ≡ (has_tag_in t old || has_tag_in t tags)
unfolding add_tags has_tag_in
has_tag_in-add_tags t [] old = ground arith
has_tag_in-add_tags t (tag ∷ tags) old =
    has_tag_in-add_tags t tags (if has_tag_in tag old then old else old ++ tag ∷ [])
    ∙ elim (Bool-cases (has_tag_in tag old)) [
      | inl old_tag ↦ elim (Bool-cases (str_eq tag t)) [
        | inl same ↦
            let s = (str_eq_iff tag t).0 same in
            let has : has_tag_in t old ≡ true = rw s at old_tag in rw (old_tag, has)
        | inr other ↦ rw (old_tag, other)
      ]
      | inr new_tag ↦ rw new_tag (ground (arith, has_tag_in-append t old tag))
    ]

-- After a certificate is cached its hash leads to a certificate with its names or, if the hash was
-- cached before, to the one that was cached, and in both cases with every tag that either has.
pub lookup-cache_certificate :
    (rnd : ℕ) (cert : Certificate) (c : Cache)
    → (cached : Certificate) × (lookup cert.hash (cache_certificate rnd cert c).certs ≡ some cached)
      × (((lookup cert.hash c.certs ≡ none) × (cached ≡ cert))
          ⊎ ((old : Certificate) × (lookup cert.hash c.certs ≡ some old)
              × (cached.names ≡ old.names)
              × ((t : Str) → has_tag cached t ≡ (has_tag old t || has_tag cert t))))
unfolding cache_certificate
lookup-cache_certificate rnd cert c = elim (Option-cases (lookup cert.hash c.certs)) [
  | inl missing ↦ (
    cert,
    rw (missing, cache_certificate)
        (lookup-insert cert.hash cert.hash cert _ ∙ rw (str_eq_refl cert.hash)),
    inl (missing, refl),
  )
  | inr (old, found) ↦
      let new = record old { tags = add_tags cert.tags old.tags } in
      (
        new,
        rw (found, cache_certificate)
            (lookup-insert cert.hash cert.hash new c.certs ∙ rw (str_eq_refl cert.hash)),
        inr (old, found, refl, λ t. unfold has_tag in has_tag_in-add_tags t cert.tags old.tags),
      )
]
