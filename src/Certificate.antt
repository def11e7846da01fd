-- ===== src/Certificate.antt =====
-- certificates.go: the certificate, its names and tags, its expiry, and when it is to be renewed.
-- A time is a number of nanoseconds since Go's zero time, so IsZero is a test for 0, and a
-- comparison with t.Add(-d) is written with d on the other side. What the program reads of the
-- packages x509, ocsp and acme are records with those fields.
pub mod Names
pub mod Filling
pub mod Renewal
pub mod Subject
pub mod Wildcard
use certmagic.Prelude.{
  ℕ, ◌+◌, ◌-◌, ◌*◌, ◌/◌, Bool, true, false, not, ◌&&◌, ◌||◌, Option, none, some, List, [], ◌∷◌, ltb,
  leb, ◌==◌, if◌then◌else◌, Str, str_eq, Result, ok, err, ◌>>=◌,
}

abbrev pub second : ℕ
second = 1000000000

-- x509.Certificate; the addresses and URIs stand as their String() gives them.
pub record Leaf : Type 0 where
  pub not_before : ℕ
  pub not_after : ℕ
  pub common_name : Str
  pub dns_names : List Str
  pub ip_addresses : List Str
  pub email_addresses : List Str
  pub uris : List Str

-- ocsp.Response
pub data OcspStatus : Type 0 where
  good revoked unknown : OcspStatus

pub record OcspResponse : Type 0 where
  pub status : OcspStatus
  pub this_update : ℕ
  pub next_update : ℕ

-- acme.RenewalInfo
pub record RenewalInfo : Type 0 where
  pub window_start : ℕ
  pub window_end : ℕ
  pub selected_time : ℕ

-- tls.Certificate: its chain of DER blocks, and the parsed leaf.
pub record TlsCertificate : Type 0 where
  pub chain : List Str
  pub leaf : Option Leaf

pub record Certificate : Type 0 where
  pub tls : TlsCertificate
  pub names : List Str
  pub tags : List Str
  pub ocsp : Option OcspResponse
  pub hash : Str
  pub managed : Bool
  pub issuer_key : Str
  pub ari : RenewalInfo

abbrev pub no_ari : RenewalInfo
no_ari = record { window_start = 0; window_end = 0; selected_time = 0 }

-- Certificate{}
abbrev pub empty_certificate : Certificate
empty_certificate = record {
  tls = record { chain = []; leaf = none };
  names = [];
  tags = [];
  ocsp = none;
  hash = [];
  managed = false;
  issuer_key = [];
  ari = no_ari;
}

unfoldable pub is_empty : Certificate → Bool
is_empty cert = elim (cert.tls.chain) [ [] ↦ true | _ ∷ _ ↦ false ]

unfoldable pub has_tag_in : Str → List Str → Bool
has_tag_in tag [] = false
has_tag_in tag (t ∷ tags) = let rest = has_tag_in tag tags in if str_eq t tag then true else rest

unfoldable pub has_tag : Certificate → Str → Bool
unfolding has_tag_in
has_tag cert tag = has_tag_in tag cert.tags

-- NotAfter.Truncate(time.Second).Add(1 * time.Second); the zero time for no certificate.
unfoldable pub expires_at : Option Leaf → ℕ
expires_at none = 0
expires_at (some leaf) = leaf.not_after / second * second + second

-- time.Now().After(expiresAt(leaf)) at the time `now`
unfoldable pub expired : ℕ → Certificate → Bool
unfolding expires_at
expired now cert = elim (cert.tls.leaf) [
  | none ↦ false
  | some leaf ↦ ltb (expires_at (some leaf)) now
]

-- The part of package time and of floating-point arithmetic that the renewal window needs:
-- `part lifetime ratio` is time.Duration(float64(lifetime) * ratio).
pub record Ratios : Type 1 where
  pub Ratio : Type 0
  pub is_zero : Ratio → Bool
  pub default_ratio : Ratio
  pub twentieth : Ratio
  pub fiftieth : Ratio
  pub part : ℕ → Ratio → ℕ

-- rand.Int63n panics when it has nothing to choose from.
pub data Panic : Type 0 where
  empty_choice : Panic

module _ (f : Ratios) where
  open f use {Ratio, is_zero, default_ratio, twentieth, fiftieth, part}

  -- The fields of Config, and of its cache's options, that renewal depends on.
  pub record RenewalConfig : Type 0 where
    pub disable_ari : Bool
    pub window_ratio : Ratio
    pub check_interval : ℕ

  -- The validity begins before it ends.
  unfoldable pub currently_in_renewal_window : (now not_before not_after : ℕ) → Ratio → Bool
  currently_in_renewal_window now not_before not_after ratio =
      let lifetime = not_after - not_before in
      let window = part lifetime (if is_zero ratio then default_ratio else ratio) in
      if not_after == 0 then false else ltb not_after (now + window)

  -- The renewal time that was selected, or one in the window: `draw` is what rand.Int63n gives.
  unfoldable pub selected_time : RenewalInfo → ℕ → Result Panic ℕ
  selected_time ari draw =
      let start = ari.window_start / second + 1 in
      let end = ari.window_end / second in
      if ari.selected_time == 0 && (not (ari.window_start == 0) && not (ari.window_end == 0))
      then (if leb end start then err empty_choice else ok ((draw + start) * second))
      else ok ari.selected_time

  -- The checks that need no renewal information.
  unfoldable pub near_expiry : RenewalConfig → ℕ → Leaf → Bool
  unfolding currently_in_renewal_window expires_at
  near_expiry cfg now leaf =
      let expiration = expires_at (some leaf) in
      if currently_in_renewal_window now leaf.not_before expiration cfg.window_ratio
      then true
      else currently_in_renewal_window now leaf.not_before expiration fiftieth
        || ltb expiration (now + cfg.check_interval * 5)

  -- The checks of the selected renewal time, if there is one.
  unfoldable pub due_by_ari : RenewalConfig → ℕ → Leaf → RenewalInfo → ℕ → Bool
  unfolding currently_in_renewal_window expires_at
  due_by_ari cfg now leaf ari selected =
      if selected == 0
      then false
      else if ltb ari.selected_time (now + cfg.check_interval)
      then true
      else currently_in_renewal_window now leaf.not_before (expires_at (some leaf)) twentieth

  unfoldable pub cert_needs_renewal :
      RenewalConfig → (now draw : ℕ) → Option Leaf → RenewalInfo → Result Panic Bool
  cert_needs_renewal cfg now draw none ari = ok false
  cert_needs_renewal cfg now draw (some leaf) ari =
      if cfg.disable_ari then ok (near_expiry cfg now leaf) else do
        selected ← selected_time ari draw
        ok (if due_by_ari cfg now leaf ari selected then true else near_expiry cfg now leaf)

  unfoldable pub needs_renewal : RenewalConfig → (now draw : ℕ) → Certificate → Result Panic Bool
  unfolding cert_needs_renewal
  needs_renewal cfg now draw cert = cert_needs_renewal cfg now draw cert.tls.leaf cert.ari
