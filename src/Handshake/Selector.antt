-- ===== src/Handshake/Selector.antt =====
-- handshake.go: what DefaultCertificateSelector chooses.
use certmagic.Prelude.{
  ◌⊎◌, ◌<◌, ℕ, ◌≡◌, ◌≢◌, refl, ◌∙◌, ap, inl, inr, Bool, true, false, Bool-cases, some, List, [],
  ◌∷◌, if◌then◌else◌, length, Among, arith, Result, ok,
}
use certmagic.Certificate.{Leaf, Certificate}
use certmagic.Handshake.{
  ClientHello, SelectPanic, is_current, try_choice, select_best, default_certificate_selector,
}

-- Every certificate has a leaf.
abbrev pub HaveLeaf : List Certificate → Type 0
HaveLeaf [] = Unit {0}
HaveLeaf (cert ∷ certs) = ((leaf : Leaf) × (cert.tls.leaf ≡ some leaf)) × HaveLeaf certs

-- The client supports a certificate, and it is valid at the time.
pub record IsUsable (hello : ClientHello) (now : ℕ) (cert : Certificate) : Type 0 where
  pub supported : hello.supports cert ≡ true
  pub current : (leaf : Leaf) × (cert.tls.leaf ≡ some leaf) × (is_current now leaf ≡ true)

-- What the loop gives: some certificate, a usable one if there is any.
abbrev Best : ClientHello → ℕ → Certificate → List Certificate → Type 0
Best hello now best choices =
    (cert : Certificate) × (select_best hello now best choices ≡ ok cert)
    × ((cert ≡ best) ⊎ Among cert choices)
    × ((other : Certificate)
        → Among other choices
        → IsUsable hello now other
        → IsUsable hello now cert)

select_best_lem :
    (hello : ClientHello) (now : ℕ) (best : Certificate) (choices : List Certificate)
    → HaveLeaf choices
    → Best hello now best choices
unfolding select_best
select_best_lem hello now best [] h = (best, refl, inl refl, λ other m u. absurd m)
select_best_lem hello now best (choice ∷ choices) ((leaf, set), h) =
    elim (Bool-cases (hello.supports choice)) [
      | inr unsupported ↦
          let (cert, made, from, usable) = select_best_lem hello now best choices h in
          (
            cert,
            rw unsupported made,
            widen cert best from,
            λ other m u. elim m [
              | inl same ↦ let q = rw same at u.supported in absurd (clash q unsupported)
              | inr there ↦ usable other there u
            ],
          )
      | inl supported ↦ elim (Bool-cases (is_current now leaf)) [
        | inl current ↦ (
          choice,
          rw supported (
              ap (λ l. try_choice now choice l (select_best hello now choice choices)) set
              ∙ tested true current _),
          inr (inl refl),
          λ other m u. record { supported = supported; current = (leaf, set, current) },
        )
        | inr stale ↦
            let (cert, made, from, usable) = select_best_lem hello now choice choices h in
            (
              cert,
              rw supported (
                  ap (λ l. try_choice now choice l (select_best hello now choice choices)) set
                  ∙ tested false stale _
                  ∙ made),
              inr (elim from [ inl same ↦ inl same | inr there ↦ inr there ]),
              λ other m u. elim m [
                | inl same ↦ let q = rw same at u.current in absurd (old q stale)
                | inr there ↦ usable other there u
              ],
            )
      ]
    ]
  where
    tested :
        (b : Bool)
        → is_current now leaf ≡ b
        → (rest : Result SelectPanic Certificate)
        → try_choice now choice (some leaf) rest ≡ (if b then ok choice else rest)
    tested b e rest = unfold try_choice in rw e

    clash : {b : Bool} → b ≡ true → b ≡ false → ⊥
    clash p q = cc

    old :
        ((l : Leaf) × (choice.tls.leaf ≡ some l) × (is_current now l ≡ true))
        → is_current now leaf ≡ false
        → ⊥
    old (l, here, fresh) p = let same : leaf ≡ l = cc (set, here) in clash (rw (← same) at fresh) p

    widen :
        (cert b : Certificate)
        → (cert ≡ b) ⊎ Among cert choices
        → (cert ≡ b) ⊎ ((cert ≡ choice) ⊎ Among cert choices)
    widen cert b (inl same) = inl same
    widen cert b (inr there) = inr (inr there)

-- Among certificates that all have a leaf the selector always chooses one of them. If there are
-- several and one of them is supported by the client and valid at the time, the chosen one is too;
-- a single certificate is chosen as it is.
pub default_certificate_selector_lem :
    (hello : ClientHello) (now : ℕ) (choices : List Certificate)
    → HaveLeaf choices
    → choices ≢ []
    → (cert : Certificate) × (default_certificate_selector hello now choices ≡ ok (some cert))
      × Among cert choices
      × ((other : Certificate)
          → 1 < length choices
          → Among other choices
          → IsUsable hello now other
          → IsUsable hello now cert)
unfolding default_certificate_selector
default_certificate_selector_lem hello now [] h full = absurd (full refl)
default_certificate_selector_lem hello now (choice ∷ []) h full =
    (choice, refl, inl refl, λ other many m u. absurd (omega arith))
default_certificate_selector_lem hello now (choice ∷ choice' ∷ choices) h full =
    let (cert, made, from, usable) =
      select_best_lem hello now choice (choice ∷ choice' ∷ choices) h in
    (
      cert,
      rw made,
      elim from [ inl same ↦ inl same | inr there ↦ there ],
      λ other many m u. usable other m u,
    )
