-- ===== src/Dns/Zone.antt =====
-- dnsutil.go: FindZoneByFQDN, which looks for the start of authority, and its cache.
use certmagic.Prelude.{
  ℕ, zero, suc, ◌+◌, ◌*◌, Bool, true, false, ◌==◌, Option, none, some, List, [], ◌∷◌, map, ltb, leb,
  if◌then◌else◌, length, drop, Str, Dict, lookup, insert, delete, Result, ok, err,
}
use certmagic.Certificate.{second}
use certmagic.Dns.{
  Soa, ResourceRecord, soa_record, cname_record, soa_type, Reply, replied, failed, Exchange,
  DnsError, context_ended, unexpected_code, no_authority, dns_query, with_dot,
}

pub record SoaCacheEntry : Type 0 where
  pub zone : Str
  pub primary_ns : Str
  pub expires : ℕ

unfoldable pub new_soa_cache_entry : ℕ → Soa → SoaCacheEntry
new_soa_cache_entry now soa = record {
  zone = soa.name;
  primary_ns = soa.ns;
  expires = now + soa.refresh * second;
}

unfoldable pub is_expired : ℕ → SoaCacheEntry → Bool
is_expired now entry = ltb entry.expires now

unfoldable pub contains_cname : List ResourceRecord → Bool
contains_cname [] = false
contains_cname (cname_record name target ∷ answer) = true
contains_cname (_ ∷ answer) = contains_cname answer

unfoldable pub first_soa : List ResourceRecord → Option Soa
first_soa [] = none
first_soa (soa_record soa ∷ answer) = some soa
first_soa (_ ∷ answer) = first_soa answer

-- What one round of the loop over the labels comes to.
pub data Verdict : Type 0 where
  skip : Verdict
  found : Soa → Verdict
  stop : ℕ → Verdict

-- An answer without a CNAME record; an empty one has no SOA record either.
unfoldable pub of_answer : List ResourceRecord → Verdict
unfolding contains_cname first_soa
of_answer answer =
    if contains_cname answer
    then skip
    else elim (first_soa answer) [ none ↦ skip | some soa ↦ found soa ]

-- The codes NOERROR and NXDOMAIN are 0 and 3.
unfoldable pub verdict : Option Reply → Verdict
unfolding of_answer
verdict none = skip
verdict (some (failed m timeout)) = skip
verdict (some (replied m)) =
    if m.rcode == 0 then of_answer m.answer else if m.rcode == 3 then skip else stop m.rcode

-- The context: whether it has ended at the start, and when the loop looks at a domain.
pub record Context : Type 0 where
  pub cancelled : Bool
  pub ended : Str → Bool

unfoldable pub settle : ℕ → Verdict → Result DnsError SoaCacheEntry → Result DnsError SoaCacheEntry
unfolding new_soa_cache_entry
settle now skip rest = rest
settle now (found soa) rest = ok (new_soa_cache_entry now soa)
settle now (stop code) rest = err (unexpected_code code)

module _ (exchange : Exchange) (ctx : Context) (now : ℕ) (nameservers : List Str) where
  -- The loop over the domains that the labels begin.
  unfoldable pub fetch_soa_from : List Str → Result DnsError SoaCacheEntry
  unfolding verdict settle
  fetch_soa_from [] = err no_authority
  fetch_soa_from (domain ∷ domains) =
      let rest = fetch_soa_from domains in
      if ctx.ended domain
      then err context_ended
      else settle now (verdict (dns_query exchange domain soa_type nameservers)) rest

  -- `split` is dns.Split, the indexes at which labels start.
  unfoldable pub fetch_soa_by_fqdn : (Str → List ℕ) → Str → Result DnsError SoaCacheEntry
  unfolding fetch_soa_from
  fetch_soa_by_fqdn split fqdn = fetch_soa_from (map (λ i. drop i fqdn) (split fqdn))

-- The key that the loop over a full cache removes, `i` entries after its start.
unfoldable pub drop_nth : {V : Type 0} → ℕ → Dict V → Dict V → Dict V
drop_nth i [] cache = cache
drop_nth zero ((key, v) ∷ m) cache = delete key cache
drop_nth (suc i) (e ∷ m) cache = drop_nth i m cache

abbrev pub SoaCache : Type 0
SoaCache = Dict SoaCacheEntry

unfoldable pub save : ℕ → Str → SoaCacheEntry → SoaCache → SoaCache
unfolding drop_nth
save i fqdn entry cache =
    insert fqdn entry (if leb 1000 (length cache) then drop_nth i cache cache else cache)

module _ (exchange : Exchange) (split : Str → List ℕ) (ctx : Context) (now i : ℕ)
    (nameservers : List Str) where
  unfoldable pub after_fetch :
      Str → Result DnsError SoaCacheEntry → SoaCache → SoaCache × Result DnsError SoaCacheEntry
  unfolding save
  after_fetch fqdn (err e) cache = (cache, err e)
  after_fetch fqdn (ok entry) cache = (save i fqdn entry cache, ok entry)

  unfoldable pub or_fetch :
      Str → Option SoaCacheEntry → SoaCache → SoaCache × Result DnsError SoaCacheEntry
  unfolding is_expired after_fetch
  or_fetch fqdn none cache =
      after_fetch fqdn (fetch_soa_by_fqdn exchange ctx now nameservers split fqdn) cache
  or_fetch fqdn (some entry) cache =
      if is_expired now entry
      then after_fetch fqdn (fetch_soa_by_fqdn exchange ctx now nameservers split fqdn) cache
      else (cache, ok entry)

  unfoldable pub lookup_soa_by_fqdn : Str → SoaCache → SoaCache × Result DnsError SoaCacheEntry
  unfolding or_fetch with_dot
  lookup_soa_by_fqdn fqdn cache =
      let name = with_dot fqdn in
      if ctx.cancelled then (cache, err context_ended) else or_fetch name (lookup name cache) cache

  unfoldable pub find_zone_by_fqdn : Str → SoaCache → SoaCache × Result DnsError Str
  unfolding lookup_soa_by_fqdn with_dot
  find_zone_by_fqdn fqdn cache =
      let (cache', soa) = lookup_soa_by_fqdn (with_dot fqdn) cache in
      (cache', elim soa [ ok entry ↦ ok entry.zone | err e ↦ err e ])
