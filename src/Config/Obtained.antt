-- ===== src/Config/Obtained.antt =====
-- config.go: what holds after obtainCert.
use certmagic.Prelude.{
  ℕ, ◌≡◌, ◌⊎◌, inl, inr, refl, sym, ◌∙◌, subst, Bool, false, Bool-cases, Option-cases, Option, none,
  some, List, [], ◌∷◌, ◌++◌, Among, Str, str_eq, ap, Result, Result-cases, ok, err,
}
use certmagic.Certificate.{Leaf}
use certmagic.Storage.Backend.{
  Storage, LoadError, not_exist, no_resources, unreadable, undecodable, not_ascii, read,
}
use certmagic.Storage.Keys.{site_private_key}
use certmagic.Config.Csr.{Csr, Naming, generate_csr, names_from_csr, names_key}
use certmagic.Config.Resources.{Encoding}
use certmagic.Config.Stored.{Holds}
use certmagic.Config.Issuing.{
  Failure, AttemptError, key_unreadable, key_undecodable, no_csr, IssuedCertificate, Issuer, Config,
  zerossl_issuer_key,
}
use certmagic.Config.Obtain.{
  Tried, passed_over, without_csr, obtained, find_key, try_issuer, try_issuers, csr_for,
  resource_of,
}

module _ {S : Type 0} where
  pub Among-append : (x : S) (xs ys : List S) → Among x (xs ++ ys) → Among x xs ⊎ Among x ys
  Among-append x [] ys h = inr h
  Among-append x (y ∷ xs) ys (inl e) = inl (inl e)
  Among-append x (y ∷ xs) ys (inr h) = elim (Among-append x xs ys h) [
    | inl a ↦ inl (inr a)
    | inr b ↦ inr b
  ]

module _ (st : Storage) (enc : Encoding) (n : Naming) (cfg : Config st.State) where
  open st use {State}

  -- A request for the name, made with the key; ZeroSSL gets one with a common name.
  abbrev pub IsRequest : Issuer State → (key name : Str) → Csr → Type 0
  IsRequest issuer key name csr =
      generate_csr n cfg.must_staple key (name ∷ []) (str_eq issuer.issuer_key zerossl_issuer_key)
      ≡ ok csr

  -- What the storage has in the end when a certificate was issued for a name: the issuer answered a
  -- request for the name, made with the key that is stored.
  pub record IsObtained (name : Str) (s : State) : Type 0 where
    pub issuer : Issuer State
    pub issued : IssuedCertificate
    pub key : Str
    pub csr : Csr
    pub meta : Str
    pub configured : Among issuer cfg.issuers
    pub requested : generate_csr n cfg.must_staple key (name ∷ []) false ≡ ok csr
    pub answered :
        (now : ℕ) × ((replaces : Option (Option Leaf)) × ((use_csr : Csr) × ((s₀ : State)
              × (IsRequest issuer key name use_csr
                  × ((issuer.issue now replaces use_csr s₀).1 ≡ ok issued)))))
    pub held :
        Holds st enc issuer.issuer_key
          (names_key (names_from_csr csr))
          (resource_of st enc n cfg csr key issuer issued)
          meta
          s

  -- Only configured issuers are tried.
  abbrev pub AllIn : List (Issuer State) → Type 0
  AllIn issuers = (i : Issuer State) → Among i issuers → Among i cfg.issuers

  abbrev pub AllFrom : Result AttemptError (Option Str × List (Issuer State)) → Type 0
  AllFrom (err e) = Unit {0}
  AllFrom (ok (key, issuers)) = AllIn issuers

  found_key :
      (domain : Str) (before rest : List (Issuer State)) (issuer : Issuer State) (s : State)
      (r : Result LoadError Str)
      → read st s (site_private_key issuer.issuer_key domain) ≡ r
      → AllIn before
      → AllIn (issuer ∷ rest)
      → AllFrom (find_key st enc n cfg domain (before ++ issuer ∷ []) rest s)
      → AllFrom (find_key st enc n cfg domain before (issuer ∷ rest) s)
  unfolding find_key
  found_key domain before rest issuer s (err not_exist) e b c more =
      let step : find_key st enc n cfg domain before (issuer ∷ rest) s
          ≡ find_key st enc n cfg domain (before ++ issuer ∷ []) rest s =
        (rw (e, find_key) refl) in
      subst AllFrom (sym step) more
  found_key domain before rest issuer s (err no_resources) e b c more =
      let step : find_key st enc n cfg domain before (issuer ∷ rest) s
          ≡ err (key_unreadable no_resources) =
        (rw (e, find_key) refl) in
      subst AllFrom (sym step) tt
  found_key domain before rest issuer s (err unreadable) e b c more =
      let step : find_key st enc n cfg domain before (issuer ∷ rest) s
          ≡ err (key_unreadable unreadable) =
        (rw (e, find_key) refl) in
      subst AllFrom (sym step) tt
  found_key domain before rest issuer s (err undecodable) e b c more =
      let step : find_key st enc n cfg domain before (issuer ∷ rest) s
          ≡ err (key_unreadable undecodable) =
        (rw (e, find_key) refl) in
      subst AllFrom (sym step) tt
  found_key domain before rest issuer s (err not_ascii) e b c more =
      let step : find_key st enc n cfg domain before (issuer ∷ rest) s
          ≡ err (key_unreadable not_ascii) =
        (rw (e, find_key) refl) in
      subst AllFrom (sym step) tt
  found_key domain before rest issuer s (ok pem) e b c more =
      elim (Bool-cases (cfg.decodes_key pem)) [
        | inr bad ↦
            let step : find_key st enc n cfg domain before (issuer ∷ rest) s ≡ err key_undecodable =
              (rw (e, find_key, bad) refl) in
            subst AllFrom (sym step) tt
        | inl good ↦
            let step : find_key st enc n cfg domain before (issuer ∷ rest) s
                ≡ ok (some pem, issuer ∷ (before ++ rest)) =
              (rw (e, find_key, good) refl) in
            subst AllFrom (sym step) (λ i a. elim a [
              | inl this ↦ c i (inl this)
              | inr other ↦ elim (Among-append i before rest other) [
                | inl x ↦ b i x
                | inr x ↦ c i (inr x)
              ]
            ])
      ]

  pub find_key-configured :
      (domain : Str) (before rest : List (Issuer State)) (s : State)
      → AllIn before
      → AllIn rest
      → AllFrom (find_key st enc n cfg domain before rest s)
  unfolding find_key
  find_key-configured domain before [] s b c = b
  find_key-configured domain before (issuer ∷ rest) s b c =
      found_key domain before rest issuer s (read st s (site_private_key issuer.issuer_key domain))
        refl b c
        (find_key-configured domain (before ++ issuer ∷ []) rest s
          (λ i a. elim (Among-append i before (issuer ∷ []) a) [
            | inl x ↦ b i x
            | inr y ↦ elim y [ inl x ↦ c i (inl x) | inr x ↦ absurd x ]
          ])
          (λ i a. c i (inr a)))

  -- An answer of an issuer that is among those tried.
  abbrev pub IsAnswer :
      ℕ
      → (key name : Str) → List (Issuer State)
      → Result AttemptError (Issuer State × IssuedCertificate)
      → Type 0
  IsAnswer now key name issuers (err e) = Unit {0}
  IsAnswer now key name issuers (ok (issuer, issued)) =
      Among issuer issuers
      × ((replaces : Option (Option Leaf)) × ((use_csr : Csr) × ((s₀ : State) × (IsRequest issuer
                  key name use_csr
                × ((issuer.issue now replaces use_csr s₀).1 ≡ ok issued)))))

  pub later-IsAnswer :
      (now : ℕ) (key name : Str) (issuer : Issuer State) (issuers : List (Issuer State))
      (r : Result AttemptError (Issuer State × IssuedCertificate))
      → IsAnswer now key name issuers r
      → IsAnswer now key name (issuer ∷ issuers) r
  later-IsAnswer now key name issuer issuers (err e) h = tt
  later-IsAnswer now key name issuer issuers (ok (i, issued)) (among, rest) = (inr among, rest)

  pub csr_for-IsRequest :
      (issuer : Issuer State) (key name : Str) (csr use_csr : Csr)
      → generate_csr n cfg.must_staple key (name ∷ []) false ≡ ok csr
      → csr_for st enc n cfg issuer key name csr ≡ ok use_csr
      → IsRequest issuer key name use_csr
  unfolding csr_for
  csr_for-IsRequest issuer key name csr use_csr made e =
      elim (Bool-cases (str_eq issuer.issuer_key zerossl_issuer_key)) [
        | inl zerossl ↦
            ap (generate_csr n cfg.must_staple key (name ∷ [])) zerossl
            ∙ let q = rw (csr_for, zerossl) at e in q
        | inr other ↦
            let q : ok csr ≡ ok use_csr = (rw (csr_for, other) at e) in
            ap (generate_csr n cfg.must_staple key (name ∷ [])) other ∙ made ∙ q
      ]

  -- What a round of the loop obtains, the issuer gave for a request for the name.
  try_issuer-obtained :
      (now : ℕ) (interactive : Bool) (key name : Str) (csr : Csr) (issuer : Issuer State)
      (s : State) (issued : IssuedCertificate)
      → generate_csr n cfg.must_staple key (name ∷ []) false ≡ ok csr
      → (try_issuer st enc n cfg now interactive key name csr issuer s).1 ≡ obtained issued
      → (use_csr : Csr) × IsRequest issuer key name use_csr
        × ((issuer.issue now none use_csr s).1 ≡ ok issued)
  unfolding try_issuer
  try_issuer-obtained now interactive key name csr issuer s issued requested h =
      elim (Option-cases (issuer.pre_check now (name ∷ []) interactive)) [
        | inr (e, objects) ↦ let q = rw (objects, try_issuer) at h in cc
        | inl fine ↦ elim (Result-cases (csr_for st enc n cfg issuer key name csr)) [
          | inr (e, bad) ↦ let q = rw (fine, bad, try_issuer) at h in cc
          | inl (use_csr, made) ↦ elim (Result-cases (issuer.issue now none use_csr s).1) [
            | inr (e, bad) ↦ let q = rw (fine, made, bad, try_issuer) at h in cc
            | inl (c, good) ↦
                let q : obtained c ≡ obtained issued = (rw (fine, made, good, try_issuer) at h) in
                (use_csr, csr_for-IsRequest issuer key name csr use_csr requested made, good ∙ cc)
          ]
        ]
      ]

  answered_by :
      (now : ℕ) (interactive : Bool) (key name : Str) (csr : Csr) (last : Option Failure)
      (issuer : Issuer State) (issuers : List (Issuer State)) (s : State) (t : Tried)
      → generate_csr n cfg.must_staple key (name ∷ []) false ≡ ok csr
      → (try_issuer st enc n cfg now interactive key name csr issuer s).1 ≡ t
      → ((e : Failure) (s' : State)
          → IsAnswer now key name issuers
              (try_issuers st enc n cfg now interactive key name csr (some e) issuers s').1)
      → IsAnswer now key name
          (issuer ∷ issuers)
          (try_issuers st enc n cfg now interactive key name csr last (issuer ∷ issuers) s).1
  unfolding try_issuers
  answered_by now interactive key name csr last issuer issuers s (passed_over e) requested h more =
      let step : (try_issuers st enc n cfg now interactive key name csr last (issuer ∷ issuers) s).1
          ≡ (try_issuers st enc n cfg now interactive key name csr (some e) issuers
              (try_issuer st enc n cfg now interactive key name csr issuer s).0).1 =
        (rw (h, try_issuers) refl) in
      subst (IsAnswer now key name (issuer ∷ issuers)) (sym step)
        (later-IsAnswer now key name issuer issuers _ (more e _))
  answered_by now interactive key name csr last issuer issuers s (without_csr e) requested h more =
      let step : (try_issuers st enc n cfg now interactive key name csr last (issuer ∷ issuers) s).1
          ≡ err (no_csr e) =
        (rw (h, try_issuers) refl) in
      subst (IsAnswer now key name (issuer ∷ issuers)) (sym step) tt
  answered_by now interactive key name csr last issuer issuers s (obtained issued) requested h
        more =
      let (use_csr, is, e) =
        try_issuer-obtained now interactive key name csr issuer s issued requested h in
      let step : (try_issuers st enc n cfg now interactive key name csr last (issuer ∷ issuers) s).1
          ≡ ok (issuer, issued) =
        (rw (h, try_issuers) refl) in
      subst (IsAnswer now key name (issuer ∷ issuers)) (sym step)
        (inl refl, (none, (use_csr, (s, (is, e)))))

  pub try_issuers-IsAnswer :
      (now : ℕ) (interactive : Bool) (key name : Str) (csr : Csr) (last : Option Failure)
      (issuers : List (Issuer State)) (s : State)
      → generate_csr n cfg.must_staple key (name ∷ []) false ≡ ok csr
      → IsAnswer now key name issuers
          (try_issuers st enc n cfg now interactive key name csr last issuers s).1
  unfolding try_issuers
  try_issuers-IsAnswer now interactive key name csr last [] s requested = tt
  try_issuers-IsAnswer now interactive key name csr last (issuer ∷ issuers) s requested =
      answered_by now interactive key name csr last issuer issuers s
        (try_issuer st enc n cfg now interactive key name csr issuer s).1 requested refl
        (λ e s'. try_issuers-IsAnswer now interactive key name csr (some e) issuers s' requested)
