-- ===== src/Cache/Keeps/Removing.antt =====
-- cache.go: removing a certificate, for itself or to make room, keeps the name index exact.
use certmagic.Prelude.{
  ◌⊎◌, leb, length, ℕ, ◌≡◌, refl, sym, ◌∙◌, ap, inl, inr, true, not, ◌&&◌, Bool-cases, Option-cases,
  Option, none, some, [], Str, str_eq, str_eq_iff, str_eq_refl, elem, lookup, lookup-delete, arith,
}
use certmagic.Certificate.{Certificate}
use certmagic.Cache.{Cache, keys_of, remove_certificate, nth_cert, make_room}
use certmagic.Cache.Index.{elem-keys-unindex_all}
use certmagic.Cache.Invariant.{carries, IsIndexed, Distinct-delete, nth_cert-lookup, Agrees}

remove_certificate-exact :
    (c : Cache) (cert : Certificate)
    → IsIndexed c
    → Agrees c cert
    → (n h : Str)
    → elem h (keys_of (remove_certificate cert c) n)
      ≡ carries (lookup h (remove_certificate cert c).certs) n
unfolding remove_certificate keys_of
remove_certificate-exact c cert v agrees n h =
    elem-keys-unindex_all h n cert.hash cert.names c.index
    ∙ rw (lookup-delete h cert.hash c.certs) (elim (Bool-cases (str_eq cert.hash h)) [
      | inl e ↦
          let same = (str_eq_iff cert.hash h).0 e in
          rw e (
            rw (← same, str_eq_refl cert.hash, v.exact n cert.hash)
              (gone (lookup cert.hash c.certs) refl))
      | inr e ↦ rw e (ground (arith, v.exact n h, str_eq_iff cert.hash h, str_eq_iff h cert.hash))
    ])
  where
    gone :
        (found : Option Certificate)
        → lookup cert.hash c.certs ≡ found
        → (not (true && elem n cert.names) && carries found n) ≡ carries none n
    gone none e = unfold carries in ground arith
    gone (some old) e = unfold carries in rw (agrees old e) (ground arith)

-- Removing a certificate keeps the index exact.
pub remove_certificate-IsIndexed :
    (c : Cache) (cert : Certificate)
    → IsIndexed c
    → Agrees c cert
    → IsIndexed (remove_certificate cert c)
remove_certificate-IsIndexed c cert v agrees = record {
  exact = remove_certificate-exact c cert v agrees;
  hashed = λ h found e. v.hashed h found (kept h found e);
  not_blank =
      unfold remove_certificate in lookup-delete [] cert.hash c.certs ∙ ground (arith, v.not_blank);
  distinct = unfold remove_certificate in Distinct-delete cert.hash c.certs v.distinct;
}
  where
    kept :
        (h : Str) (found : Certificate)
        → lookup h (remove_certificate cert c).certs ≡ some found
        → lookup h c.certs ≡ some found
    kept h found e =
        unfold remove_certificate in ground (arith, e, lookup-delete h cert.hash c.certs)

pub cached-Agrees :
    (c : Cache) (h : Str) (cert : Certificate)
    → IsIndexed c
    → lookup h c.certs ≡ some cert
    → Agrees c cert
cached-Agrees c h cert v e old found =
    let same : cert ≡ old = cc (rw (v.hashed h cert e) at found, e) in ap (λ x. x.names) (sym same)

pub make_room-removes :
    (rnd : ℕ) (c : Cache)
    → IsIndexed c
    → (make_room rnd c ≡ c)
      ⊎ ((h : Str) × (cert : Certificate) × (lookup h c.certs ≡ some cert)
          × (make_room rnd c ≡ remove_certificate cert c))
unfolding make_room
make_room-removes rnd c v = elim (Option-cases (nth_cert rnd c.certs)) [
  | inl missing ↦ inl (ground (arith, missing))
  | inr (cert, found) ↦
      elim (Bool-cases (leb 1 c.options.capacity && leb c.options.capacity (length c.certs))) [
        | inl full ↦
            let (h, at_hash) = nth_cert-lookup rnd c.certs cert v.distinct found in
            inr (h, cert, at_hash, rw (full, found))
        | inr free ↦ inl (rw free)
      ]
]

pub make_room-IsIndexed : (rnd : ℕ) (c : Cache) → IsIndexed c → IsIndexed (make_room rnd c)
make_room-IsIndexed rnd c v = elim (make_room-removes rnd c v) [
  | inl same ↦ rw same v
  | inr (h, cert, found, removed) ↦
      rw removed (remove_certificate-IsIndexed c cert v (cached-Agrees c h cert v found))
]

pub make_room-missing :
    (rnd : ℕ) (c : Cache) (h : Str)
    → IsIndexed c
    → lookup h c.certs ≡ none
    → lookup h (make_room rnd c).certs ≡ none
make_room-missing rnd c h v e = elim (make_room-removes rnd c v) [
  | inl same ↦ rw same e
  | inr (k, cert, found, removed) ↦
      rw removed
        (unfold remove_certificate in lookup-delete h cert.hash c.certs ∙ ground (arith, e))
]
