-- ===== src/Handshake/Choice.antt =====
-- handshake.go: which certificate getCertificateFromCache finds, without a custom selection.
use certmagic.Prelude.{
  ◌⊎◌, ℕ, ◌≡◌, ◌≢◌, refl, ◌∙◌, inl, inr, Bool-cases, Option, none, some, List, [], ◌∷◌, Among, Str,
  str_eq, str_eq_iff, Result, ok,
}
use certmagic.Certificate.{Certificate}
use certmagic.Certificate.Names.{wildcards}
use certmagic.Cache.{Cache, get_all_matching_certs}
use certmagic.Cache.Invariant.{IsIndexed}
use certmagic.Cache.Lookup.{IsCached, get_all_matching_certs_iff}
use certmagic.Handshake.{
  ClientHello, SelectionConfig, SelectPanic, Found, matched, not_found, choices_for, select_cert,
  or_else, try_names, try_default, normalized_name, get_certificate_from_cache,
}
use certmagic.Handshake.Selector.{HaveLeaf, default_certificate_selector_lem}

-- Every certificate that a lookup by name gives has a leaf.
abbrev pub AllHaveLeaf : Cache → Type 0
AllHaveLeaf c = (name : Str) → HaveLeaf (get_all_matching_certs c name)

-- What selectCert gives for a name: a cached certificate that carries it, or nothing, and then no
-- cached certificate carries it.
abbrev Selected : Cache → Str → Result SelectPanic (Option Certificate) → Type 0
Selected c name r =
    ((cert : Certificate) × (r ≡ ok (some cert)) × IsCached c name cert)
    ⊎ ((r ≡ ok none) × ((cert : Certificate) → IsCached c name cert → ⊥))

module _ (cfg : SelectionConfig) (c : Cache) (hello : ClientHello) (now : ℕ) where
  select_cert_lem :
      (name : Str)
      → cfg.cert_selection ≡ none
      → IsIndexed c
      → AllHaveLeaf c
      → Selected c name (select_cert cfg c hello now name)
  select_cert_lem name plain v leaves = go (get_all_matching_certs c name) refl (leaves name)
    where
      few : get_all_matching_certs c name ≡ [] → choices_for cfg c name ≡ none
      few e = unfold choices_for in rw (e, choices_for, plain) refl

      many :
          (x : Certificate) (xs : List Certificate)
          → get_all_matching_certs c name ≡ x ∷ xs
          → choices_for cfg c name ≡ some (x ∷ xs)
      many x xs e = unfold choices_for in rw (e, choices_for) refl

      go :
          (found : List Certificate)
          → get_all_matching_certs c name ≡ found
          → HaveLeaf found
          → Selected c name (select_cert cfg c hello now name)
      go [] e h = inr (
        unfold select_cert in rw (few e, select_cert) refl,
        λ cert k. rw e at ((get_all_matching_certs_iff c name cert v).1 k),
      )
      go (x ∷ xs) e h =
          let (cert, made, from, usable) =
            default_certificate_selector_lem hello now (x ∷ xs) h (λ q. cc) in
          inl (
            cert,
            unfold select_cert in rw (many x xs e, select_cert, plain) made,
            (get_all_matching_certs_iff c name cert v).0 (rw e from),
          )

  -- What the loop over the names gives.
  abbrev Tried : List Str → Result SelectPanic Found → Result SelectPanic Found → Type 0
  Tried names next r =
      ((name : Str) × (cert : Certificate) × Among name names
        × (r ≡ ok (matched cert))
        × IsCached c name cert)
      ⊎ ((r ≡ next)
          × ((name : Str) (cert : Certificate) → Among name names → IsCached c name cert → ⊥))

  try_names_lem :
      (names : List Str) (next : Result SelectPanic Found)
      → cfg.cert_selection ≡ none
      → IsIndexed c
      → AllHaveLeaf c
      → Tried names next (try_names cfg c hello now names next)
  unfolding try_names
  try_names_lem [] next plain v leaves = inr (refl, λ name cert m k. m)
  try_names_lem (name ∷ names) next plain v leaves = elim (select_cert_lem name plain v leaves) [
    | inl (cert, got, cached) ↦ inl (name, cert, inl refl, rw got (unfold or_else in refl), cached)
    | inr (got, nobody) ↦ elim (try_names_lem names next plain v leaves) [
      | inl (n, cert, m, made, cached) ↦
          inl (n, cert, inr m, rw got (unfold or_else in made), cached)
      | inr (made, none_there) ↦ inr (
        rw got (unfold or_else in made),
        λ n cert m k. elim m [
          | inl same ↦ nobody cert (rw same at k)
          | inr there ↦ none_there n cert there k
        ],
      )
    ]
  ]

  by_name :
      (split_host_port : Str → Option Str)
      → normalized_name hello.server_name ≢ []
      → get_certificate_from_cache split_host_port cfg c hello now
        ≡ try_names cfg c hello now
            (normalized_name hello.server_name ∷ wildcards (normalized_name hello.server_name))
            (try_default cfg c hello now cfg.fallback_server_name (ok not_found))
  unfolding get_certificate_from_cache
  by_name split_host_port named =
      elim (Bool-cases (str_eq (normalized_name hello.server_name) [])) [
        | inl blank ↦ absurd (named ((str_eq_iff _ _).0 blank))
        | inr full ↦ rw full
      ]

  -- Without a custom selection, in a cache with an exact index all of whose certificates have a
  -- leaf, for a hello with a server name: a certificate that is cached for the name or for one of
  -- its wildcards is found, as a match, whenever there is one, and the name itself goes first: if
  -- some cached certificate carries it, so does the one that is found.
  pub get_certificate_from_cache_lem :
      (split_host_port : Str → Option Str)
      → cfg.cert_selection ≡ none
      → IsIndexed c
      → AllHaveLeaf c
      → normalized_name hello.server_name ≢ []
      → let name = normalized_name hello.server_name in
        let found = get_certificate_from_cache split_host_port cfg c hello now in
        (((n : Str) × (cert : Certificate) × Among n (name ∷ wildcards name)
            × (found ≡ ok (matched cert))
            × IsCached c n cert)
          ⊎ (((n : Str) (cert : Certificate)
              → Among n (name ∷ wildcards name)
              → IsCached c n cert
              → ⊥)))
        × ((exact : Certificate)
            → IsCached c name exact
            → (cert : Certificate) × (found ≡ ok (matched cert)) × IsCached c name cert)
  get_certificate_from_cache_lem split_host_port plain v leaves named =
      let name = normalized_name hello.server_name in
      let found = get_certificate_from_cache split_host_port cfg c hello now in
      let fallback = try_default cfg c hello now cfg.fallback_server_name (ok not_found) in
      let looped : found ≡ try_names cfg c hello now (name ∷ wildcards name) fallback =
        by_name split_host_port named in
      (
        elim (try_names_lem (name ∷ wildcards name) fallback plain v leaves) [
          | inl (n, cert, m, made, cached) ↦ inl (n, cert, m, looped ∙ made, cached)
          | inr (made, nobody) ↦ inr nobody
        ],
        λ exact k. elim (select_cert_lem name plain v leaves) [
          | inl (cert, got, cached) ↦ (cert, looped ∙ unfold try_names or_else in rw got, cached)
          | inr (got, nobody) ↦ absurd (nobody exact k)
        ],
      )
