-- ===== src/Dns/Bounds.antt =====
-- dnsutil.go: the zone that is found, and the bound of the cache of zones.
use certmagic.Prelude.{
  ℕ, zero, suc, ◌+◌, ◌≤◌, ◌<◌, ◌≡◌, refl, ap, inl, inr, Bool-cases, Option, none, some, List, [],
  ◌∷◌, ◌++◌, leb, length, Among, Str, str_eq, str_eq_refl, Dict, lookup, length-insert-le,
  length-delete_of_some, arith, Result, ok, err,
}
use certmagic.Dns.{Soa, soa_type, Exchange, DnsError, dns_query, with_dot}
use certmagic.Dns.Zone.{
  SoaCacheEntry, SoaCache, new_soa_cache_entry, Verdict, skip, found, stop, verdict, settle,
  Context, fetch_soa_from, drop_nth, save, is_expired, after_fetch, or_fetch, lookup_soa_by_fqdn,
}

held_at_head : {V : Type 0} (key : Str) (v : V) (m : Dict V) → lookup key ((key, v) ∷ m) ≡ some v
unfolding lookup
held_at_head key v m = rw (str_eq_refl key)

held_later :
    {V : Type 0} (j key : Str) (w : V) (m : Dict V)
    → (v : V) × (lookup key m ≡ some v)
    → (v : V) × (lookup key ((j, w) ∷ m) ≡ some v)
unfolding lookup
held_later j key w m (v, e) = elim (Bool-cases (str_eq j key)) [
  | inl same ↦ (w, rw same)
  | inr other ↦ (v, rw other e)
]

-- The n-th key of a map is in the map.
length-drop_nth :
    {V : Type 0} (i : ℕ) (m cache : Dict V)
    → i < length m
    → ((key : Str) → (v : V) × (lookup key m ≡ some v) → (w : V) × (lookup key cache ≡ some w))
    → length (drop_nth i m cache) + 1 ≤ length cache
unfolding drop_nth
length-drop_nth i [] cache less inside = absurd (omega arith)
length-drop_nth zero ((key, v) ∷ m) cache less inside =
    let (w, e) = inside key (v, held_at_head key v m) in length-delete_of_some key w cache e
length-drop_nth (suc i) ((j, w) ∷ m) cache less inside =
    length-drop_nth i m cache (omega arith) (λ key e. inside key (held_later j key w m e))

length-save :
    (i : ℕ) (fqdn : Str) (entry : SoaCacheEntry) (cache : SoaCache)
    → length cache ≤ 1000
    → (1000 ≤ length cache → i < length cache)
    → length (save i fqdn entry cache) ≤ 1000
unfolding save
length-save i fqdn entry cache fits drawn = elim (Bool-cases (leb 1000 (length cache))) [
  | inl full ↦
      let shorter = length-drop_nth i cache cache (drawn (ground (arith, full))) (λ key e. e) in
      rw full (omega (arith, shorter, length-insert-le fqdn entry (drop_nth i cache cache)))
  | inr free ↦ rw free (ground (arith, free, length-insert-le fqdn entry cache))
]

-- The cache of zones never grows over 1000 entries, if the key that is removed from a full cache
-- is one of its keys.
pub length-lookup_soa_by_fqdn :
    (exchange : Exchange) (split : Str → List ℕ) (ctx : Context) (now i : ℕ)
    (nameservers : List Str) (fqdn : Str) (cache : SoaCache)
    → length cache ≤ 1000
    → (1000 ≤ length cache → i < length cache)
    → length (lookup_soa_by_fqdn exchange split ctx now i nameservers fqdn cache).0 ≤ 1000
unfolding lookup_soa_by_fqdn after_fetch or_fetch
length-lookup_soa_by_fqdn exchange split ctx now i nameservers fqdn cache fits drawn =
    elim (Bool-cases ctx.cancelled) [
      | inl over ↦ rw over fits
      | inr going ↦ simp going (looked (lookup (with_dot fqdn) cache))
    ]
  where
    fetched :
        (name : Str) (r : Result DnsError SoaCacheEntry)
        → length (after_fetch exchange split ctx now i nameservers name r cache).0 ≤ 1000
    fetched name (err e) = fits
    fetched name (ok entry) = length-save i name entry cache fits drawn

    looked :
        (o : Option SoaCacheEntry)
        → length (or_fetch exchange split ctx now i nameservers (with_dot fqdn) o cache).0 ≤ 1000
    looked none = fetched (with_dot fqdn) _
    looked (some entry) = elim (Bool-cases (is_expired now entry)) [
      | inl old ↦ rw old (fetched (with_dot fqdn) _)
      | inr fresh ↦ rw fresh fits
    ]

-- The first domain whose answer settles the search gives the entry.
abbrev pub FirstFound : Exchange → ℕ → List Str → List Str → SoaCacheEntry → Type 0
FirstFound exchange now nameservers domains entry =
    (before : List Str) × (domain : Str) × (after : List Str) × (soa : Soa) × (domains
      ≡ before ++ domain ∷ after)
    × ((d : Str) → Among d before → verdict (dns_query exchange d soa_type nameservers) ≡ skip)
    × (verdict (dns_query exchange domain soa_type nameservers) ≡ found soa)
    × (entry ≡ new_soa_cache_entry now soa)

module _ (exchange : Exchange) (ctx : Context) (now : ℕ) (nameservers : List Str) where
  settle-ok :
      (d : Str) (ds : List Str) (entry : SoaCacheEntry) (v : Verdict)
      → verdict (dns_query exchange d soa_type nameservers) ≡ v
      → settle now v (fetch_soa_from exchange ctx now nameservers ds) ≡ ok entry
      → (fetch_soa_from exchange ctx now nameservers ds ≡ ok entry
          → FirstFound exchange now nameservers ds entry)
      → FirstFound exchange now nameservers (d ∷ ds) entry
  unfolding settle
  settle-ok d ds entry skip e k later =
      let (before, domain, after, soa, same, skipped, settled, made) = later k in
      (
        d ∷ before,
        domain,
        after,
        soa,
        ap (λ l. d ∷ l) same,
        (λ x a. elim a [ inl here ↦ rw here e | inr there ↦ skipped x there ]),
        settled,
        made,
      )
  settle-ok d ds entry (found soa) e k later = ([], d, ds, soa, refl, (λ x a. absurd a), e, cc)
  settle-ok d ds entry (stop code) e k later = cc

  -- If the search for the start of authority gives an entry, it comes from the first domain, so
  -- from the longest, whose answer settles the search: the answers for all domains before it are
  -- skipped, and the answer for this domain has the SOA record that the entry is made of.
  pub fetch_soa_from-first :
      (domains : List Str) (entry : SoaCacheEntry)
      → fetch_soa_from exchange ctx now nameservers domains ≡ ok entry
      → FirstFound exchange now nameservers domains entry
  unfolding fetch_soa_from
  fetch_soa_from-first [] entry h = cc
  fetch_soa_from-first (d ∷ ds) entry h = elim (Bool-cases (ctx.ended d)) [
    | inl over ↦ let q = rw over at h in cc
    | inr going ↦
        settle-ok d ds entry (verdict (dns_query exchange d soa_type nameservers)) refl
          (rw going at h) (fetch_soa_from-first ds entry)
  ]
