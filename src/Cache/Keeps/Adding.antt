-- ===== src/Cache/Keeps/Adding.antt =====
-- cache.go: adding a certificate, or tags to one, keeps the name index exact.
use certmagic.Prelude.{
  ◌≡◌, ◌≢◌, refl, sym, ◌∙◌, ap, inl, inr, ◌&&◌, ◌||◌, Bool-cases, none, some, List, [],
  if◌then◌else◌, Str, str_eq, str_eq_iff, str_eq_refl, elem, lookup, insert, lookup-insert, arith,
}
use certmagic.Certificate.{Certificate}
use certmagic.Cache.{Cache, keys_of, index_names}
use certmagic.Cache.Index.{keys, elem-keys-index_names}
use certmagic.Cache.Invariant.{carries, IsIndexed, Distinct-insert}

-- What a cache becomes when an entry is given other tags.
pub retagged-IsIndexed :
    (c : Cache) (h : Str) (old : Certificate) (tags : List Str)
    → IsIndexed c
    → lookup h c.certs ≡ some old
    → IsIndexed (record c { certs = insert h (record old { tags = tags }) c.certs })
unfolding keys_of carries
retagged-IsIndexed c h old tags v e = record {
  exact = λ n k. v.exact n k ∙ rw (lookup-insert k h new c.certs) (same_names n k);
  hashed = λ k cert found. rehashed k cert (rw (lookup-insert k h new c.certs) at found);
  not_blank = lookup-insert [] h new c.certs ∙ ground (arith, v.not_blank, str_eq_iff h [], e);
  distinct = Distinct-insert h new c.certs v.distinct;
}
  where
    new : Certificate
    new = record old { tags = tags }

    same_names :
        (n k : Str)
        → carries (lookup k c.certs) n
          ≡ carries (if str_eq h k then some new else lookup k c.certs) n
    same_names n k = elim (Bool-cases (str_eq h k)) [
      | inl same ↦ rw (same, ← (str_eq_iff h k).0 same, e) refl
      | inr other ↦ rw other
    ]

    rehashed :
        (k : Str) (cert : Certificate)
        → (if str_eq h k then some new else lookup k c.certs) ≡ some cert
        → cert.hash ≡ k
    rehashed k cert found = elim (Bool-cases (str_eq h k)) [
      | inl same ↦
          let there : some new ≡ some cert = rw same at found in
          let equal : new ≡ cert = cc (there) in
          ap (λ x. x.hash) (sym equal) ∙ v.hashed h old e ∙ (str_eq_iff h k).0 same
      | inr other ↦ v.hashed k cert (rw other at found)
    ]

-- What a cache becomes when a certificate is added under a hash that is not cached.
pub added-IsIndexed :
    (c : Cache) (cert : Certificate)
    → IsIndexed c
    → cert.hash ≢ []
    → lookup cert.hash c.certs ≡ none
    → IsIndexed (record c {
      certs = insert cert.hash cert c.certs;
      index = index_names cert.hash cert.names c.index;
    })
unfolding keys_of carries
added-IsIndexed c cert v full e = record {
  exact = λ n k.
      elem-keys-index_names k n cert.hash cert.names c.index
      ∙ rw (lookup-insert k cert.hash cert c.certs) (both n k);
  hashed = λ k other found. rehashed k other (rw (lookup-insert k cert.hash cert c.certs) at found);
  not_blank =
      lookup-insert [] cert.hash cert c.certs
      ∙ ground (arith, v.not_blank, str_eq_iff cert.hash [], full);
  distinct = Distinct-insert cert.hash cert c.certs v.distinct;
}
  where
    both :
        (n k : Str)
        → (elem k (keys n c.index) || (str_eq k cert.hash && elem n cert.names))
          ≡ carries (if str_eq cert.hash k then some cert else lookup k c.certs) n
    both n k = elim (Bool-cases (str_eq cert.hash k)) [
      | inl same ↦
          let s = (str_eq_iff cert.hash k).0 same in
          let before = v.exact n cert.hash ∙ ap (λ o. carries o n) e in
          rw (same, ← s, str_eq_refl cert.hash, before)
      | inr other ↦
          rw other
            (ground (arith, other, v.exact n k, str_eq_iff k cert.hash, str_eq_iff cert.hash k))
    ]

    rehashed :
        (k : Str) (other : Certificate)
        → (if str_eq cert.hash k then some cert else lookup k c.certs) ≡ some other
        → other.hash ≡ k
    rehashed k other found = elim (Bool-cases (str_eq cert.hash k)) [
      | inl same ↦
          let there : some cert ≡ some other = rw same at found in
          let equal : cert ≡ other = cc (there) in
          ap (λ x. x.hash) (sym equal) ∙ (str_eq_iff cert.hash k).0 same
      | inr apart ↦ v.hashed k other (rw apart at found)
    ]
