-- ===== src/Tests/Certs.antt =====
-- Renewal, names and subjects of certificates, and keys of storage, on concrete values.
use certmagic.Prelude.{
  ℕ, ◌+◌, ◌*◌, ◌/◌, ◌≤◌, ◌<◌, ◌≡◌, ◌≢◌, ◌↔◌, ◌⊎◌, refl, true, false, Option, none, some, List, [],
  ◌∷◌, ◌==◌, length, get_or, Str, codes, str_eq, has_prefix, has_suffix, contains_byte, to_lower,
  trim_space, arith, ok,
}
use certmagic.Certificate.{
  Leaf, RenewalInfo, TlsCertificate, Certificate, Ratios, RenewalConfig, empty_certificate, second,
  expires_at, selected_time, near_expiry, due_by_ari, cert_needs_renewal,
}
use certmagic.Certificate.Renewal.{cert_needs_renewal-margin, cert_needs_renewal_unselected}
use certmagic.Certificate.Names.{labels_of, split_on, join_with, count_byte}
use certmagic.Certificate.Wildcard.{match_wildcard, covered, match_wildcard_iff}
use certmagic.Certificate.Filling.{fill_cert_from_leaf}
use certmagic.Certificate.Subject.{
  Net, subject_qualifies_for_cert, subject_qualifies_for_public_cert,
}
use certmagic.Storage.Keys.{safe, prefix_certs, certs_site_prefix}
use certmagic.Storage.Safe.{has_dots}
use certmagic.Storage.Paths.{IsRegular, certs_site_prefix_up}

-- Ratios in thousandths.
abbrev pub thousandths : Ratios
thousandths = record {
  Ratio = ℕ;
  is_zero = λ r. r == 0;
  default_ratio = 333;
  twentieth = 50;
  fiftieth = 20;
  part = λ lifetime r. lifetime * r / 1000;
}

abbrev pub config : RenewalConfig thousandths
config = record { disable_ari = false; window_ratio = 0; check_interval = second }

abbrev leaf : Leaf
leaf = record {
  not_before = second;
  not_after = 100 * second;
  common_name = codes "example.com";
  dns_names = codes "example.com" ∷ codes "WWW.example.com" ∷ [];
  ip_addresses = [];
  email_addresses = [];
  uris = [];
}

abbrev selected : RenewalInfo
selected = record {
  window_start = 40 * second;
  window_end = 60 * second;
  selected_time = 50 * second;
}

abbrev unselected : RenewalInfo
unselected = record selected { selected_time = 0 }

abbrev short : RenewalInfo
short = record unselected { window_end = 41 * second }

early : cert_needs_renewal thousandths config (10 * second) 3 (some leaf) selected ≡ ok false
unfolding cert_needs_renewal selected_time due_by_ari near_expiry
early = refl

due : cert_needs_renewal thousandths config (50 * second) 3 (some leaf) selected ≡ ok true
unfolding cert_needs_renewal selected_time due_by_ari near_expiry
due = refl

late_answer : cert_needs_renewal thousandths config (200 * second) 3 (some leaf) selected ≡ ok true
unfolding cert_needs_renewal selected_time due_by_ari near_expiry
late_answer = refl

expired_leaf : expires_at (some leaf) < 200 * second
unfolding expires_at
expired_leaf = omega arith

cert_needs_renewal-margin_example :
    (10 * second + config.check_interval * 5 ≤ expires_at (some leaf))
    × ((config.disable_ari ≡ true)
        ⊎ ((selected.selected_time ≡ 0)
            ⊎ (10 * second + config.check_interval ≤ selected.selected_time)))
cert_needs_renewal-margin_example =
    cert_needs_renewal-margin thousandths config leaf selected (10 * second) 3 early

cert_needs_renewal_unselected_example :
    cert_needs_renewal thousandths config second 3 (some leaf) unselected ≡ ok true
cert_needs_renewal_unselected_example =
    cert_needs_renewal_unselected thousandths config leaf unselected second 3 (omega arith) refl
      refl (omega arith) (omega arith)

abbrev host : Str
host = codes "a.Example.com"

match_wildcard-true : match_wildcard host (codes "*.example.COM") ≡ true
unfolding match_wildcard to_lower str_eq contains_byte split_on join_with
match_wildcard-true = refl

match_wildcard_iff_example : (match_wildcard host (codes "*.example.COM") ≡ true) ↔ (
    (to_lower host ≡ to_lower (codes "*.example.COM"))
    ⊎ ((contains_byte b'*' (to_lower (codes "*.example.COM")) ≡ true)
        × ((k : ℕ) × (k < length (labels_of (to_lower host)))
            × (get_or (labels_of (to_lower host)) k [] ≢ [])
            × (covered (labels_of (to_lower host)) k ≡ to_lower (codes "*.example.COM")))))
match_wildcard_iff_example = match_wildcard_iff host (codes "*.example.COM")

abbrev tls : TlsCertificate
tls = record { chain = codes "der" ∷ []; leaf = some leaf }

abbrev no_parse : Str → Option Leaf
no_parse der = none

abbrev first_block : List Str → Str
first_block [] = []
first_block (der ∷ rest) = der

abbrev filled : Certificate
filled = record empty_certificate {
  tls = tls;
  names = codes "example.com" ∷ codes "www.example.com" ∷ [];
  hash = codes "der";
}

fill_ok : fill_cert_from_leaf no_parse first_block empty_certificate tls ≡ ok filled
unfolding fill_cert_from_leaf str_eq to_lower
fill_ok = refl

-- A network in which nothing has a port and nothing is an address.
abbrev no_net : Net
no_net = record {
  Ip = Unit {0};
  split_host_port = λ s. none;
  parse_ip = λ s. none;
  in_network = λ net ip. false;
}

wild_public : subject_qualifies_for_public_cert no_net (codes "*.example.com") ≡ true
unfolding subject_qualifies_for_public_cert subject_qualifies_for_cert str_eq has_prefix has_suffix
    contains_byte to_lower trim_space count_byte
wild_public = refl

wild_star : contains_byte b'*' (codes "*.example.com") ≡ true
unfolding contains_byte
wild_star = refl

abbrev pub issuer : Str
issuer = codes "acme"

safe-issuer : safe issuer ≡ codes "acme"
unfolding safe to_lower trim_space
safe-issuer = refl

pub issuer-IsRegular : IsRegular issuer
unfolding safe to_lower trim_space
issuer-IsRegular = record {
  full = λ e. cc;
  not_here = λ e. ground arith;
  not_up = λ e. ground arith;
}

domain-IsRegular : IsRegular (codes "*.Example.com")
unfolding safe to_lower trim_space
domain-IsRegular = record {
  full = λ e. cc;
  not_here = λ e. ground arith;
  not_up = λ e. ground arith;
}

no_dots : has_dots (safe (codes "*.Ex/ample.com")) ≡ false
unfolding safe to_lower trim_space has_dots
no_dots = refl

-- Without the slash two dots stand side by side, and they are removed only the second time.
safe_twice : (safe (codes "./.") ≡ codes "..") × (safe (codes "..") ≡ [])
unfolding safe to_lower trim_space
safe_twice = (refl, refl)

-- The name passes the check of subjects, too.
slashed_qualifies : subject_qualifies_for_cert (codes "/././") ≡ true
unfolding subject_qualifies_for_cert str_eq has_prefix has_suffix contains_byte trim_space
slashed_qualifies = refl

safe_slashed : safe (codes "/././") ≡ codes ".."
unfolding safe to_lower trim_space
safe_slashed = refl

certs_site_prefix_up_example : certs_site_prefix issuer (codes "/././") ≡ prefix_certs
certs_site_prefix_up_example =
    certs_site_prefix_up issuer (codes "/././") issuer-IsRegular safe_slashed
