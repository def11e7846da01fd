-- ===== src/Dns/Propagation.antt =====
-- dnsutil.go: checkDNSPropagation, and which name servers it is content with.
use certmagic.Prelude.{
  ℕ, ◌≡◌, ◌↔◌, refl, ap, inl, inr, Bool, true, false, not, ◌||◌, ◌==◌, Option, none, some, List, [],
  ◌∷◌, ◌++◌, if◌then◌else◌, Among, Str, codes, str_eq, to_lower, Result, ok, err, ◌>>=◌,
}
use certmagic.Certificate.Subject.{trim_dot}
use certmagic.Dns.{
  ResourceRecord, cname_record, txt_record, ns_record, RecType, txt_type, cname_type, ns_type,
  Reply, replied, failed, Exchange, DnsError, query_failed, no_nameservers, unsupported_type,
  nil_message, unexpected_code, dns_query, with_dot,
}
use certmagic.Dns.Zone.{Context, SoaCache, find_zone_by_fqdn}

-- strings.Join(parts, "")
unfoldable pub concat : List Str → Str
concat [] = []
concat (part ∷ parts) = part ++ concat parts

unfoldable pub is_supported : RecType → Bool
is_supported txt_type = true
is_supported cname_type = true
is_supported _ = false

unfoldable pub has_value : RecType → Str → ResourceRecord → Bool
unfolding concat
has_value txt_type expected (txt_record parts) = str_eq (concat parts) expected
has_value cname_type expected (cname_record name target) =
    str_eq (trim_dot target) (trim_dot expected)
has_value _ expected _ = false

-- What the answer of one server comes to.
pub data Finding : Type 0 where
  shown absent not_yet : Finding

-- The loop over the records of an answer.
unfoldable pub look_through : RecType → Str → List ResourceRecord → Result DnsError Finding
unfolding is_supported has_value
look_through rtype expected [] = ok absent
look_through rtype expected (rr ∷ answer) =
    let rest = look_through rtype expected answer in
    if not (is_supported rtype)
    then err unsupported_type
    else if has_value rtype expected rr
    then ok shown
    else rest

-- The codes NOERROR, SERVFAIL and NXDOMAIN are 0, 2 and 3.
unfoldable pub look_at : RecType → Str → Option Reply → Result DnsError Finding
unfolding look_through
look_at rtype expected none = err nil_message
look_at rtype expected (some (failed m timeout)) = err query_failed
look_at rtype expected (some (replied m)) =
    if m.rcode == 0
    then look_through rtype expected m.answer
    else if m.rcode == 3 || m.rcode == 2
    then ok not_yet
    else err (unexpected_code m.rcode)

unfoldable pub conclude : Result DnsError Finding → Result DnsError Bool → Result DnsError Bool
conclude (ok shown) rest = ok true
conclude (ok absent) rest = rest
conclude (ok not_yet) rest = ok false
conclude (err e) rest = err e

module _ (exchange : Exchange) (fqdn : Str) (rtype : RecType) (expected : Str) where
  -- What one server is found to say.
  abbrev pub ask : Str → Result DnsError Finding
  ask ns = look_at rtype expected (dns_query exchange fqdn rtype (ns ∷ []))

  unfoldable pub check_authoritative_nss : List Str → Result DnsError Bool
  unfolding look_at conclude
  check_authoritative_nss [] = ok false
  check_authoritative_nss (ns ∷ nameservers) =
      let rest = check_authoritative_nss nameservers in conclude (ask ns) rest

unfoldable pub update_domain_with_cname : List ResourceRecord → Str → Str
update_domain_with_cname [] fqdn = fqdn
update_domain_with_cname (cname_record name target ∷ answer) fqdn =
    let rest = update_domain_with_cname answer fqdn in if str_eq name fqdn then target else rest
update_domain_with_cname (_ ∷ answer) fqdn = update_domain_with_cname answer fqdn

unfoldable pub ns_names : List ResourceRecord → List Str
ns_names [] = []
ns_names (ns_record ns ∷ answer) = to_lower ns ∷ ns_names answer
ns_names (_ ∷ answer) = ns_names answer

-- A name server without a port gets port 53; `port_of` and `join_host_port` are of package net.
unfoldable pub populate_nameserver_ports : (Str → Str) → (Str → Str → Str) → List Str → List Str
populate_nameserver_ports port_of join_host_port [] = []
populate_nameserver_ports port_of join_host_port (s ∷ servers) =
    (if str_eq (port_of s) [] then join_host_port s (codes "53") else s)
    ∷ populate_nameserver_ports port_of join_host_port servers

abbrev default_nameservers : List Str
default_nameservers =
    codes "8.8.8.8:53" ∷ codes "8.8.4.4:53" ∷ codes "1.1.1.1:53" ∷ codes "1.0.0.1:53" ∷ []

-- `config` is the servers of the file, if it can be read.
unfoldable pub system_or_default_nameservers : Option (List Str) → List Str → List Str
system_or_default_nameservers none defaults = defaults
system_or_default_nameservers (some []) defaults = defaults
system_or_default_nameservers (some (s ∷ servers)) defaults = s ∷ servers

unfoldable pub recursive_nameservers :
    (Str → Str) → (Str → Str → Str) → Option (List Str) → List Str → List Str
unfolding populate_nameserver_ports system_or_default_nameservers
recursive_nameservers port_of join_host_port config [] =
    populate_nameserver_ports port_of join_host_port
      (system_or_default_nameservers config default_nameservers)
recursive_nameservers port_of join_host_port config (s ∷ custom) =
    populate_nameserver_ports port_of join_host_port (s ∷ custom)

unfoldable pub servers_of : Option Reply → Result DnsError (List Str)
unfolding ns_names
servers_of none = err nil_message
servers_of (some (failed m timeout)) = err query_failed
servers_of (some (replied m)) = elim (ns_names m.answer) [
  | [] ↦ err no_nameservers
  | ns ∷ rest ↦ ok (ns ∷ rest)
]

unfoldable pub is_cname_type : RecType → Bool
is_cname_type cname_type = true
is_cname_type _ = false

-- The name that is checked, after a CNAME record is followed.
unfoldable pub followed : Str → Option Reply → Result DnsError Str
unfolding update_domain_with_cname
followed fqdn none = err nil_message
followed fqdn (some (failed m timeout)) = err query_failed
followed fqdn (some (replied m)) =
    if m.rcode == 0 then ok (update_domain_with_cname m.answer fqdn) else ok fqdn

module _ (exchange : Exchange) (split : Str → List ℕ) (port_of : Str → Str)
    (join_host_port : Str → Str → Str) (ctx : Context) (now i : ℕ) where
  unfoldable pub lookup_nameservers :
      Str → List Str → SoaCache → SoaCache × Result DnsError (List Str)
  unfolding servers_of
  lookup_nameservers fqdn resolvers cache =
      let (cache', zone) = find_zone_by_fqdn exchange split ctx now i resolvers fqdn cache in
      (cache', zone >>= λ z. servers_of (dns_query exchange z ns_type resolvers))

  unfoldable pub check_dns_propagation :
      Str
      → RecType
      → Str
      → (authoritative : Bool) → List Str
      → SoaCache
      → SoaCache × Result DnsError Bool
  unfolding with_dot is_cname_type followed lookup_nameservers check_authoritative_nss
      populate_nameserver_ports
  check_dns_propagation fqdn rtype expected authoritative resolvers cache =
      let name = with_dot fqdn in
      let target =
        if is_cname_type rtype
        then ok name
        else followed name (dns_query exchange name rtype resolvers) in
      elim target [
        | err e ↦ (cache, err e)
        | ok z ↦
            let (cache', servers) = lookup_nameservers z resolvers cache in
            if authoritative
            then (
              cache',
              servers >>= λ nss.
                  check_authoritative_nss exchange z rtype expected
                    (populate_nameserver_ports port_of join_host_port nss),
            )
            else (cache, check_authoritative_nss exchange z rtype expected resolvers)
      ]

-- Some server shows the record, and those before it answer without it.
abbrev pub FirstShows : Exchange → Str → RecType → Str → List Str → Type 0
FirstShows exchange fqdn rtype expected nameservers =
    (before : List Str) × (ns : Str) × (after : List Str) × (nameservers ≡ before ++ ns ∷ after)
    × ((n : Str) → Among n before → ask exchange fqdn rtype expected n ≡ ok absent)
    × (ask exchange fqdn rtype expected ns ≡ ok shown)

module _ (exchange : Exchange) (fqdn : Str) (rtype : RecType) (expected : Str) where
  abbrev check : List Str → Result DnsError Bool
  check = check_authoritative_nss exchange fqdn rtype expected

  conclude-true :
      (ns : Str) (nss : List Str) (r : Result DnsError Finding)
      → ask exchange fqdn rtype expected ns ≡ r
      → conclude r (check nss) ≡ ok true
      → (check nss ≡ ok true → FirstShows exchange fqdn rtype expected nss)
      → FirstShows exchange fqdn rtype expected (ns ∷ nss)
  unfolding conclude
  conclude-true ns nss (ok shown) e k later = ([], ns, nss, refl, (λ m a. absurd a), e)
  conclude-true ns nss (ok absent) e k later =
      let (before, n, after, same, lack, shows) = later k in
      (
        ns ∷ before,
        n,
        after,
        ap (λ l. ns ∷ l) same,
        (λ m a. elim a [ inl here ↦ rw here e | inr there ↦ lack m there ]),
        shows,
      )
  conclude-true ns nss (ok not_yet) e k later = cc
  conclude-true ns nss (err x) e k later = cc

  check-FirstShows :
      (nss : List Str) → check nss ≡ ok true → FirstShows exchange fqdn rtype expected nss
  unfolding check_authoritative_nss
  check-FirstShows [] h = cc
  check-FirstShows (ns ∷ nss) h =
      conclude-true ns nss (ask exchange fqdn rtype expected ns) refl h (check-FirstShows nss)

  check-shown :
      (before : List Str) (ns : Str) (after : List Str)
      → ((n : Str) → Among n before → ask exchange fqdn rtype expected n ≡ ok absent)
      → ask exchange fqdn rtype expected ns ≡ ok shown
      → check (before ++ ns ∷ after) ≡ ok true
  unfolding check_authoritative_nss conclude
  check-shown [] ns after lack shows = rw shows
  check-shown (b ∷ before) ns after lack shows =
      rw (lack b (inl refl)) (check-shown before ns after (λ n a. lack n (inr a)) shows)

  -- The check gives true exactly when some server shows the record and every server before it
  -- answers without the record, whatever the servers after it would answer.
  pub check_authoritative_nss_iff :
      (nameservers : List Str)
      → (check_authoritative_nss exchange fqdn rtype expected nameservers ≡ ok true)
        ↔ FirstShows exchange fqdn rtype expected nameservers
  check_authoritative_nss_iff nameservers = (
    check-FirstShows nameservers,
    λ (before, ns, after, same, lack, shows). rw same (check-shown before ns after lack shows),
  )
