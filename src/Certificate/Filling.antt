-- ===== src/Certificate/Filling.antt =====
-- certificates.go: fillCertFromLeaf, which gathers the subjects of a certificate. Parsing a DER
-- block and hashing a chain are parameters.
use certmagic.Prelude.{
  ◌≡◌, ◌≢◌, refl, ◌∙◌, ◌⊎◌, Bool, true, false, ◌||◌, Bool-cases, inl, inr, Option, none, some, List,
  [], ◌∷◌, ◌++◌, if◌then◌else◌, Str, str_eq, str_eq_iff, str_eq_refl, elem, to_lower, arith, Result,
  ok, err, ◌>>=◌,
}
use certmagic.Certificate.{Leaf, TlsCertificate, Certificate}

pub data FillError : Type 0 where
  empty_chain no_names : FillError
  unparsable : FillError

-- One of the loops that append subjects: those other than the common name, changed by `f`.
unfoldable pub append_names : (Str → Str) → Str → List Str → List Str → List Str
append_names f common [] names = names
append_names f common (name ∷ more) names =
    append_names f common more (if str_eq name common then names else names ++ f name ∷ [])

unfoldable pub subject_names : Leaf → List Str
unfolding append_names
subject_names leaf =
    let common = leaf.common_name in
    let names = if str_eq common [] then [] else to_lower common ∷ [] in
    let names = append_names to_lower common leaf.dns_names names in
    let names = append_names to_lower common leaf.ip_addresses names in
    let names = append_names to_lower common leaf.email_addresses names in
    append_names (λ u. u) common leaf.uris names

module _ (parse : Str → Option Leaf) (hash_chain : List Str → Str) where
  -- The leaf of a TLS certificate, parsed from its first block if it is not set.
  unfoldable pub leaf_of : TlsCertificate → Result FillError Leaf
  leaf_of tls = elim (tls.chain) [
    | [] ↦ err empty_chain
    | der ∷ _ ↦ elim (tls.leaf) [
      | some leaf ↦ ok leaf
      | none ↦ elim (parse der) [ some leaf ↦ ok leaf | none ↦ err unparsable ]
    ]
  ]

  unfoldable pub named :
      Certificate → TlsCertificate → Leaf → List Str → Result FillError Certificate
  named cert tls leaf [] = err no_names
  named cert tls leaf (name ∷ names) = ok (record cert {
    tls = record tls { leaf = some leaf };
    names = name ∷ names;
    hash = hash_chain tls.chain;
  })

  -- The names, the leaf and the hash are set; the other fields of `cert` are kept.
  unfoldable pub fill_cert_from_leaf : Certificate → TlsCertificate → Result FillError Certificate
  unfolding leaf_of subject_names named
  fill_cert_from_leaf cert tls = do leaf ← leaf_of tls; named cert tls leaf (subject_names leaf)

elem-append : (s : Str) (xs ys : List Str) → elem s (xs ++ ys) ≡ (elem s xs || elem s ys)
unfolding elem
elem-append s [] ys = refl
elem-append s (x ∷ xs) ys = ground (arith, elem-append s xs ys)

append_names-keeps :
    (f : Str → Str) (common s : Str) (more names : List Str)
    → elem s names ≡ true
    → elem s (append_names f common more names) ≡ true
unfolding append_names
append_names-keeps f common s [] names h = h
append_names-keeps f common s (name ∷ more) names h =
    append_names-keeps f common s more (if str_eq name common then names else names ++ f name ∷ [])
      (ground (arith, elem-append s names (f name ∷ [])))

elem_self : (s : Str) (names : List Str) → elem s (names ++ s ∷ []) ≡ true
elem_self s names = rw (elem-append s names (s ∷ [])) (unfold elem in ground (arith, str_eq_refl s))

added :
    (f : Str → Str) (common name : Str) (names : List Str)
    → (name ≡ common → elem (f name) names ≡ true)
    → elem (f name) (if str_eq name common then names else names ++ f name ∷ []) ≡ true
added f common name names c = elim (Bool-cases (str_eq name common)) [
  | inl e ↦ rw e (c ((str_eq_iff name common).0 e))
  | inr e ↦ rw e (elem_self (f name) names)
]

append_names-adds :
    (f : Str → Str) (common s : Str) (more names : List Str)
    → elem s more ≡ true
    → (s ≡ common → elem (f s) names ≡ true)
    → elem (f s) (append_names f common more names) ≡ true
unfolding append_names elem
append_names-adds f common s [] names h c = cc
append_names-adds f common s (name ∷ more) names h c = elim (Bool-cases (str_eq s name)) [
  | inl here ↦
      let same : s ≡ name = (str_eq_iff s name).0 here in
      append_names-keeps f common (f s) more _
        (rw same (added f common name names (λ e. rw same at (c (same ∙ e)))))
  | inr other ↦
      append_names-adds f common s more (if str_eq name common then names else names ++ f name ∷ [])
        (ground (arith, other)) (λ e. ground (arith, c e, elem-append (f s) names (f name ∷ [])))
]

-- What a certificate with a common name holds before the other names are appended.
common-added :
    (common : Str) (s : Str)
    → common ≢ []
    → s ≡ common
    → elem (to_lower s) (if str_eq common [] then [] else to_lower common ∷ []) ≡ true
unfolding elem
common-added common s full e =
    rw e (ground (arith, str_eq_iff common [], str_eq_refl (to_lower common)))

or-cases : (a b : Bool) → (a || b) ≡ true → (a ≡ true) ⊎ (b ≡ true)
or-cases true b h = inl refl
or-cases false b h = inr h

subject_names-adds :
    (leaf : Leaf) (s : Str)
    → s ≢ []
    → (elem s leaf.dns_names || (elem s leaf.ip_addresses || elem s leaf.email_addresses)) ≡ true
    → elem (to_lower s) (subject_names leaf) ≡ true
unfolding subject_names
subject_names-adds leaf s full h =
    let common = leaf.common_name in
    let n0 = if str_eq common [] then [] else to_lower common ∷ [] in
    let n1 = append_names to_lower common leaf.dns_names n0 in
    let n2 = append_names to_lower common leaf.ip_addresses n1 in
    let n3 = append_names to_lower common leaf.email_addresses n2 in
    let keep1 = append_names-keeps to_lower common (to_lower s) leaf.dns_names n0 in
    let keep2 = append_names-keeps to_lower common (to_lower s) leaf.ip_addresses n1 in
    let keep3 = append_names-keeps to_lower common (to_lower s) leaf.email_addresses n2 in
    let keep4 = append_names-keeps (λ u. u) common (to_lower s) leaf.uris n3 in
    let c0 : s ≡ common → elem (to_lower s) n0 ≡ true =
      λ e. common-added common s (λ none_set. full (e ∙ none_set)) e in
    elim (or-cases _ _ h) [
      | inl dns ↦
          keep4 (keep3 (keep2 (append_names-adds to_lower common s leaf.dns_names n0 dns c0)))
      | inr more ↦ elim (or-cases _ _ more) [
        | inl ip ↦ keep4 (
            keep3 (append_names-adds to_lower common s leaf.ip_addresses n1 ip (λ e. keep1 (c0 e))))
        | inr email ↦ keep4 (
            append_names-adds to_lower common s leaf.email_addresses n2 email
              (λ e. keep2 (keep1 (c0 e))))
      ]
    ]

-- When filling succeeds the certificate has a leaf, at least one name and the hash of its chain,
-- and every DNS name, IP address and e-mail address of the leaf that is not empty is among the
-- names in lower case.
pub fill_cert_from_leaf-names :
    (parse : Str → Option Leaf) (hash_chain : List Str → Str) (cert filled : Certificate)
    (tls : TlsCertificate)
    → fill_cert_from_leaf parse hash_chain cert tls ≡ ok filled
    → (leaf : Leaf) × (filled.tls.leaf ≡ some leaf)
      × (filled.names ≢ [])
      × (filled.hash ≡ hash_chain tls.chain)
      × ((s : Str)
          → s ≢ []
          → (elem s leaf.dns_names || (elem s leaf.ip_addresses || elem s leaf.email_addresses))
            ≡ true
          → elem (to_lower s) filled.names ≡ true)
unfolding fill_cert_from_leaf
fill_cert_from_leaf-names parse hash_chain cert filled tls h =
    go (leaf_of parse hash_chain tls) refl
  where
    done :
        (leaf : Leaf) (names : List Str)
        → names ≡ subject_names leaf
        → named parse hash_chain cert tls leaf names ≡ ok filled
        → (filled.tls.leaf ≡ some leaf)
          × (filled.names ≢ [])
          × (filled.names ≡ subject_names leaf)
          × (filled.hash ≡ hash_chain tls.chain)
    done leaf [] same e = unfold named in cc
    done leaf (x ∷ names) same e = unfold named in ground (arith, same, e)

    go :
        (r : Result FillError Leaf)
        → leaf_of parse hash_chain tls ≡ r
        → (leaf : Leaf) × (filled.tls.leaf ≡ some leaf)
          × (filled.names ≢ [])
          × (filled.hash ≡ hash_chain tls.chain)
          × ((s : Str)
              → s ≢ []
              → (elem s leaf.dns_names || (elem s leaf.ip_addresses || elem s leaf.email_addresses))
                ≡ true
              → elem (to_lower s) filled.names ≡ true)
    go (err x) e = let q = rw e at h in cc
    go (ok leaf) e =
        let (set, full, same, hashed) = done leaf (subject_names leaf) refl (rw e at h) in
        (leaf, set, full, hashed, λ s ne among. rw same (subject_names-adds leaf s ne among))
