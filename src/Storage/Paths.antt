-- ===== src/Storage/Paths.antt =====
-- storage.go: where the keys of a site lie, and the names for which they lie elsewhere.
use certmagic.Prelude.{
  ◌≡◌, ◌≢◌, refl, ap, sym, ◌∙◌, false, List, [], ◌∷◌, ◌++◌, if◌then◌else◌, Str, codes, str_eq,
  str_eq_refl, length, length-append, ◌<◌, arith,
}
use certmagic.Certificate.Names.{split_on, join_with, count_byte, count_byte-append, Plain}
use certmagic.Storage.Keys.{
  go_up, clean_part, clean_parts, clean, join_path, safe, prefix_certs, certs_prefix,
  certs_site_prefix, site_cert, site_private_key, site_meta,
}
use certmagic.Storage.Safe.{AllBytes, is_safe_byte, safe-AllBytes}
use certmagic.Storage.Parts.{
  IsPart, split-join, clean_part_kept, is_rooted-join, join-ne-nil, differs, join-append,
  join_path-part,
}

pub no-slash : (s : Str) → AllBytes is_safe_byte s → count_byte b'/' s ≡ 0
unfolding count_byte
no-slash [] a = refl
no-slash (c ∷ s) a = ground (arith, a.0, no-slash s a.1)

-- A name whose sanitized form is a part of a path: not empty, and neither "." nor "..".
pub record IsRegular (name : Str) : Type 0 where
  pub full : safe name ≢ []
  pub not_here : safe name ≢ codes "."
  pub not_up : safe name ≢ codes ".."

pub safe-IsPart : (name : Str) → IsRegular name → IsPart (safe name)
safe-IsPart name r = record {
  full = r.full;
  no_slash = no-slash (safe name) (safe-AllBytes name);
  not_here = r.not_here;
  not_up = r.not_up;
}

pub certs-IsPart : IsPart prefix_certs
certs-IsPart = record {
  full = λ e. cc;
  no_slash = unfold count_byte in refl;
  not_here = λ e. ground arith;
  not_up = λ e. ground arith;
}

certs_prefix_lem :
    (issuer : Str)
    → IsRegular issuer
    → certs_prefix issuer ≡ join_with b'/' (prefix_certs ∷ safe issuer ∷ [])
unfolding certs_prefix
certs_prefix_lem issuer r =
    (unfold join_with in
      join_path-part prefix_certs (safe issuer) [] (certs-IsPart, tt) (safe-IsPart issuer r))

-- For an issuer and a domain whose sanitized names are parts of a path, the prefix of the site is
-- the sanitized names below the prefix of all certificates.
pub certs_site_prefix_lem :
    (issuer domain : Str)
    → IsRegular issuer
    → IsRegular domain
    → certs_site_prefix issuer domain
      ≡ join_with b'/' (prefix_certs ∷ safe issuer ∷ safe domain ∷ [])
unfolding certs_site_prefix
certs_site_prefix_lem issuer domain r s = rw (certs_prefix_lem issuer r) (
    join_path-part prefix_certs (safe domain) (safe issuer ∷ [])
      (certs-IsPart, (safe-IsPart issuer r, tt)) (safe-IsPart domain s))

file-IsPart :
    (s e : Str) → count_byte b'/' s ≡ 0 → count_byte b'/' e ≡ 0 → 2 < length e → IsPart (s ++ e)
file-IsPart s e h k long = record {
  full = λ q. absurd (omega (arith, length-append s e, ap length q));
  no_slash = omega (arith, count_byte-append b'/' s e);
  not_here = λ q. absurd (omega (arith, length-append s e, ap length q));
  not_up = λ q. absurd (omega (arith, length-append s e, ap length q));
}

site_file :
    (issuer domain e : Str)
    → IsRegular issuer
    → IsRegular domain
    → count_byte b'/' e ≡ 0
    → 2 < length e
    → join_path (certs_site_prefix issuer domain ∷ (safe domain ++ e) ∷ [])
      ≡ join_with b'/' (prefix_certs ∷ safe issuer ∷ safe domain ∷ (safe domain ++ e) ∷ [])
site_file issuer domain e r s k long = rw (certs_site_prefix_lem issuer domain r s) (
    join_path-part prefix_certs (safe domain ++ e) (safe issuer ∷ safe domain ∷ [])
      (certs-IsPart, (safe-IsPart issuer r, (safe-IsPart domain s, tt)))
      (file-IsPart (safe domain) e (no-slash (safe domain) (safe-AllBytes domain)) k long))

-- The keys of the certificate, the private key and the metadata of a site, for an issuer and a
-- domain whose sanitized names are parts of a path: files of the site's own folder.
pub site_keys :
    (issuer domain : Str)
    → IsRegular issuer
    → IsRegular domain
    → let below = λ (file : Str).
      join_with b'/' (prefix_certs ∷ safe issuer ∷ safe domain ∷ (safe domain ++ file) ∷ []) in
      (site_cert issuer domain ≡ below (codes ".crt"))
      × (site_private_key issuer domain ≡ below (codes ".key"))
      × (site_meta issuer domain ≡ below (codes ".json"))
unfolding site_cert site_private_key site_meta
site_keys issuer domain r s = (
  site_file issuer domain (codes ".crt") r s (unfold count_byte in refl) (omega arith),
  site_file issuer domain (codes ".key") r s (unfold count_byte in refl) (omega arith),
  site_file issuer domain (codes ".json") r s (unfold count_byte in refl) (omega arith),
)

head_of : List Str → Str
head_of [] = []
head_of (p ∷ ps) = p

tail_of : List Str → List Str
tail_of [] = []
tail_of (p ∷ ps) = ps

-- Two sites with one certificate key have the same sanitized issuer and the same sanitized domain.
pub site_cert-injective :
    (issuer domain issuer' domain' : Str)
    → IsRegular issuer
    → IsRegular domain
    → IsRegular issuer'
    → IsRegular domain'
    → site_cert issuer domain ≡ site_cert issuer' domain'
    → (safe issuer ≡ safe issuer') × (safe domain ≡ safe domain')
unfolding head_of tail_of
site_cert-injective issuer domain issuer' domain' r s r' s' e =
    let same =
      sym (split-join b'/' prefix_certs _ (plain issuer domain r s))
      ∙ ap (split_on b'/')
          (sym (site_keys issuer domain r s).0 ∙ e ∙ (site_keys issuer' domain' r' s').0)
      ∙ split-join b'/' prefix_certs _ (plain issuer' domain' r' s') in
    (ap (λ ps. head_of (tail_of ps)) same, ap (λ ps. head_of (tail_of (tail_of ps))) same)
  where
    plain :
        (i d : Str)
        → IsRegular i
        → IsRegular d
        → Plain b'/' (prefix_certs ∷ safe i ∷ safe d ∷ (safe d ++ codes ".crt") ∷ [])
    plain i d r s =
        let below = no-slash (safe d) (safe-AllBytes d) in
        let ext : count_byte b'/' (codes ".crt") ≡ 0 = unfold count_byte in refl in
        (
          certs-IsPart.no_slash,
          (
            (safe-IsPart i r).no_slash,
            (
              below,
              (omega (arith, below, ext, count_byte-append b'/' (safe d) (codes ".crt")), tt),
            ),
          ),
        )

clean_part_up : (p q : Str) → q ≢ codes ".." → clean_part false (q ∷ p ∷ []) (codes "..") ≡ p ∷ []
unfolding clean_part go_up
clean_part_up p q h = rw (
  differs (codes "..") [] (λ e. cc),
  differs (codes "..") (codes ".") (λ e. cc),
  str_eq_refl (codes ".."),
  differs q (codes "..") h,
)

clean_parts_up :
    (p q : Str) → IsPart p → IsPart q → clean_parts false [] (p ∷ q ∷ codes ".." ∷ []) ≡ p ∷ []
unfolding clean_parts
clean_parts_up p q h k =
    rw
      (clean_part_kept false [] p h, clean_part_kept false (p ∷ []) q k, clean_part_up p q k.not_up)

join_path-up :
    (p q : Str)
    → IsPart p
    → IsPart q
    → join_path (join_with b'/' (p ∷ q ∷ []) ∷ codes ".." ∷ []) ≡ p
unfolding join_path clean
join_path-up p q h k =
    let dots : count_byte b'/' (codes "..") ≡ 0 = unfold count_byte in refl in
    let whole = join_with b'/' (p ∷ (q ∷ []) ++ codes ".." ∷ []) in
    rw
      (
        differs (join_with b'/' (p ∷ q ∷ [])) [] (join-ne-nil p (q ∷ []) h.full),
        differs (codes "..") [] (λ e. cc),
        joined (join_with b'/' (p ∷ q ∷ [])) (codes ".."),
        ← join-append b'/' p (codes "..") (q ∷ []),
        differs (join_with b'/' (p ∷ q ∷ codes ".." ∷ [])) []
            (join-ne-nil p (q ∷ codes ".." ∷ []) h.full),
        is_rooted-join p (q ∷ codes ".." ∷ []) h,
        split-join b'/' p (q ∷ codes ".." ∷ []) (h.no_slash, (k.no_slash, (dots, tt))),
        clean_parts_up p q h k,
      )
      (single p h.full)
  where
    joined : (s t : Str) → join_with b'/' (s ∷ t ∷ []) ≡ s ++ b'/' ∷ t
    joined s t = unfold join_with in refl

    single :
        (s : Str)
        → s ≢ []
        → (if str_eq (join_with b'/' (s ∷ [])) [] then codes "." else join_with b'/' (s ∷ [])) ≡ s
    single s ne = unfold join_with in rw (differs s [] ne)

-- A domain that is sanitized to ".." has the prefix of all certificates as the prefix of its site:
-- the key leaves the issuer's folder.
pub certs_site_prefix_up :
    (issuer domain : Str)
    → IsRegular issuer
    → safe domain ≡ codes ".."
    → certs_site_prefix issuer domain ≡ prefix_certs
unfolding certs_site_prefix
certs_site_prefix_up issuer domain r up =
    rw (certs_prefix_lem issuer r, up)
      (join_path-up prefix_certs (safe issuer) certs-IsPart (safe-IsPart issuer r))
