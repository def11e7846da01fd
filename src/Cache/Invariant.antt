-- ===== src/Cache/Invariant.antt =====
-- cache.go: the invariant of the cache, and facts on its map of certificates.
use certmagic.Prelude.{
  ℕ, zero, suc, ◌≡◌, refl, ◌∙◌, inl, inr, Bool, false, Bool-cases, Option, none, some, [], ◌∷◌, Str,
  str_eq, str_eq_iff, str_eq_refl, elem, Dict, lookup, insert, delete, lookup-insert, lookup-delete,
  arith,
}
use certmagic.Certificate.{Certificate}
use certmagic.Cache.{Cache, keys_of, nth_cert}

-- Whether the entry found for a hash carries a name.
unfoldable pub carries : Option Certificate → Str → Bool
carries none n = false
carries (some cert) n = elem n cert.names

abbrev pub Distinct : Dict Certificate → Type 0
Distinct [] = Unit {0}
Distinct ((h, cert) ∷ m) = (lookup h m ≡ none) × Distinct m

-- The keys of every name are the hashes of the cached certificates that carry it, each certificate
-- is cached under its own hash, once, and no hash is empty.
pub record IsIndexed (c : Cache) : Type 0 where
  pub exact : (n h : Str) → elem h (keys_of c n) ≡ carries (lookup h c.certs) n
  pub hashed : (h : Str) (cert : Certificate) → lookup h c.certs ≡ some cert → cert.hash ≡ h
  pub not_blank : lookup [] c.certs ≡ none
  pub distinct : Distinct c.certs

pub Distinct-delete : (h : Str) (m : Dict Certificate) → Distinct m → Distinct (delete h m)
unfolding delete
Distinct-delete h [] d = tt
Distinct-delete h ((k, cert) ∷ m) d = elim (Bool-cases (str_eq k h)) [
  | inl e ↦ rw e (Distinct-delete h m d.1)
  | inr e ↦ rw e (
    lookup-delete k h m ∙ ground (arith, d.0, str_eq_iff h k, str_eq_iff k h),
    Distinct-delete h m d.1,
  )
]

pub Distinct-insert :
    (h : Str) (cert : Certificate) (m : Dict Certificate) → Distinct m → Distinct (insert h cert m)
unfolding insert lookup
Distinct-insert h cert [] d = (refl, tt)
Distinct-insert h cert ((k, old) ∷ m) d = elim (Bool-cases (str_eq k h)) [
  | inl e ↦ let same = (str_eq_iff k h).0 e in rw e (rw same at d.0, d.1)
  | inr e ↦ rw e (
    lookup-insert k h cert m ∙ ground (arith, d.0, e, str_eq_iff h k, str_eq_iff k h),
    Distinct-insert h cert m d.1,
  )
]

pub nth_cert-lookup :
    (n : ℕ) (m : Dict Certificate) (cert : Certificate)
    → Distinct m
    → nth_cert n m ≡ some cert
    → (h : Str) × (lookup h m ≡ some cert)
unfolding nth_cert lookup
nth_cert-lookup n [] cert d e = cc
nth_cert-lookup zero ((h, old) ∷ m) cert d e = (h, rw (str_eq_refl h) e)
nth_cert-lookup (suc n) ((k, old) ∷ m) cert d e =
    let (h, found) = nth_cert-lookup n m cert d.1 e in
    let apart : str_eq k h ≡ false = elim (Bool-cases (str_eq k h)) [
      | inl same ↦ let missing = rw ((str_eq_iff k h).0 same) at d.0 in cc (missing, found)
      | inr f ↦ f
    ] in
    (h, rw apart found)

-- The certificate, if its hash is cached, has the names that are cached for that hash.
abbrev pub Agrees : Cache → Certificate → Type 0
Agrees c cert = (old : Certificate) → lookup cert.hash c.certs ≡ some old → old.names ≡ cert.names
