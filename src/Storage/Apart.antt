-- ===== src/Storage/Apart.antt =====
-- storage.go: the three files of a site have different keys.
use mathlib.Core.List.{append_cancel_left}
use certmagic.Prelude.{
  ◌≡◌, ◌≢◌, refl, ap, sym, ◌∙◌, false, List, [], ◌∷◌, ◌++◌, Str, codes, str_eq, arith,
}
use certmagic.Certificate.Names.{split_on, join_with, count_byte, count_byte-append}
use certmagic.Storage.Keys.{safe, prefix_certs, site_cert, site_private_key, site_meta}
use certmagic.Storage.Safe.{safe-AllBytes}
use certmagic.Storage.Parts.{split-join, differs}
use certmagic.Storage.Paths.{IsRegular, no-slash, safe-IsPart, certs-IsPart, site_keys}

-- The files of a site, by what is added to the name.
abbrev below : Str → Str → Str → Str
below issuer domain file =
    join_with b'/' (prefix_certs ∷ safe issuer ∷ safe domain ∷ (safe domain ++ file) ∷ [])

last_part : List Str → Str
last_part [] = []
last_part (p ∷ []) = p
last_part (p ∷ q ∷ ps) = last_part (q ∷ ps)

module _ (issuer domain : Str) (r : IsRegular issuer) (s : IsRegular domain) where
  split-below :
      (file : Str)
      → count_byte b'/' file ≡ 0
      → split_on b'/' (below issuer domain file)
        ≡ prefix_certs ∷ safe issuer ∷ safe domain ∷ (safe domain ++ file) ∷ []
  split-below file plain =
      let under = no-slash (safe domain) (safe-AllBytes domain) in
      let last : count_byte b'/' (safe domain ++ file) ≡ 0 =
        omega (arith, under, plain, count_byte-append b'/' (safe domain) file) in
      split-join b'/' prefix_certs _
        (certs-IsPart.no_slash, ((safe-IsPart issuer r).no_slash, (under, (last, tt))))

  below-apart :
      (file file' : Str)
      → count_byte b'/' file ≡ 0
      → count_byte b'/' file' ≡ 0
      → file ≢ file'
      → str_eq (below issuer domain file) (below issuer domain file') ≡ false
  unfolding last_part
  below-apart file file' plain plain' apart = differs _ _ (λ e. apart (
      append_cancel_left (safe domain) file file' (
        ap last_part
          (sym (split-below file plain) ∙ ap (split_on b'/') e ∙ split-below file' plain'))))

  -- The keys of the private key, the certificate and the metadata differ from each other.
  pub site_keys-apart :
      (str_eq (site_cert issuer domain) (site_private_key issuer domain) ≡ false)
      × (str_eq (site_meta issuer domain) (site_private_key issuer domain) ≡ false)
      × (str_eq (site_meta issuer domain) (site_cert issuer domain) ≡ false)
  unfolding count_byte
  site_keys-apart =
      let (cert, key, meta) = site_keys issuer domain r s in
      (
        rw (cert, key) (below-apart (codes ".crt") (codes ".key") refl refl (λ e. ground arith)),
        rw (meta, key) (below-apart (codes ".json") (codes ".key") refl refl (λ e. ground arith)),
        rw (meta, cert) (below-apart (codes ".json") (codes ".crt") refl refl (λ e. ground arith)),
      )
