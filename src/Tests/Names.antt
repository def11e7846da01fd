-- ===== src/Tests/Names.antt =====
-- Zones, propagation and challenges, with servers and a provider of a few fixed answers.
use certmagic.Prelude.{
  ℕ, ◌≡◌, ◌↔◌, ◌⊎◌, refl, sym, ap, true, false, none, some, List, [], ◌∷◌, if◌then◌else◌, Str,
  codes, str_eq, has_suffix, has_prefix, Among, Dict, lookup, insert, lookup-insert, ok, pos,
  negsuc,
}
use certmagic.Dns.{
  ResourceRecord, soa_type, cname_type, ns_type, other_type, Soa, soa_record, txt_record, txt_type,
  Reply, replied, Exchange, dns_query, with_dot, needs_tcp, is_answered,
}
use certmagic.Dns.Zone.{
  Context, SoaCacheEntry, fetch_soa_from, fetch_soa_by_fqdn, verdict, lookup_soa_by_fqdn,
  find_zone_by_fqdn,
}
use certmagic.Dns.Propagation.{
  FirstShows, check_authoritative_nss, check_authoritative_nss_iff, look_at, has_value,
}
use certmagic.Storage.Backend.{Storage}
use certmagic.Tests.Folders.{delete_all, lookup-delete_all}
use certmagic.Solvers.Memory.{DnsRecord}
use certmagic.Solvers.Dns01.{
  DnsProvider, Lookup, DnsConfig, Manager, Echoes, present, IsCleaned, present-clean_up,
}
use certmagic.Solvers.Shared.{
  Solver, SharedError, present_shared, clean_up_shared, present_shared-clean_up,
}
use certmagic.Solvers.Waiting.{WaitRound, finished, wait, in_time, IsShownBy, wait-finished}

abbrev apex : Soa
apex = record { name = codes "b.org."; ns = codes "ns.b.org."; refresh = 60 }

abbrev message : ResourceRecord → Reply
message rr = replied (record { rcode = 0; truncated = false; answer = rr ∷ [] })

abbrev nothing : Reply
nothing = replied (record { rcode = 3; truncated = false; answer = [] })

-- Only the apex has an authority; a server that is called "s" does not have the text yet.
abbrev answers : Exchange
answers protocol fqdn soa_type ns =
    if str_eq fqdn (codes "b.org.") then message (soa_record apex) else nothing
answers protocol fqdn txt_type ns =
    message
      (txt_record (if str_eq ns (codes "s") then codes "old" ∷ [] else codes "n" ∷ codes "ew" ∷ []))
answers protocol fqdn cname_type ns = nothing
answers protocol fqdn ns_type ns = nothing
answers protocol fqdn other_type ns = nothing

abbrev ctx : Context
ctx = record { cancelled = false; ended = λ domain. false }

abbrev domains : List Str
domains = codes "a.b.org." ∷ codes "b.org." ∷ codes "org." ∷ []

abbrev entry : SoaCacheEntry
entry = record { zone = codes "b.org."; primary_ns = codes "ns.b.org."; expires = 60000000007 }

abbrev split : Str → List ℕ
split fqdn = 0 ∷ 2 ∷ 4 ∷ []

-- The last server has an old text, and is not asked.
some_server_shows :
    check_authoritative_nss answers
      (codes "a.b.org.")
      txt_type
      (codes "new")
      (codes "t" ∷ codes "s" ∷ [])
    ≡ ok true
unfolding check_authoritative_nss dns_query str_eq look_at needs_tcp is_answered has_value
some_server_shows = refl

check_authoritative_nss_iff_example :
    (check_authoritative_nss answers
        (codes "a.b.org.")
        txt_type
        (codes "new")
        (codes "s" ∷ codes "t" ∷ [])
      ≡ ok true)
    ↔ FirstShows answers (codes "a.b.org.") txt_type (codes "new") (codes "s" ∷ codes "t" ∷ [])
check_authoritative_nss_iff_example =
    check_authoritative_nss_iff answers (codes "a.b.org.") txt_type (codes "new")
      (codes "s" ∷ codes "t" ∷ [])

-- A provider that keeps the records in a list.
abbrev listing : DnsProvider
listing = record {
  State = List DnsRecord;
  append_records = λ zone r s. (r ∷ s, some (r ∷ []));
  delete_records = λ zone r s. (s, true);
  relative_name = λ fqdn zone. fqdn;
}

abbrev look : Lookup
look = record {
  exchange = answers;
  split = split;
  ctx = ctx;
  now = 7;
  evicted = 0;
  nameservers = codes "r" ∷ [];
}

abbrev dns_config : DnsConfig
dns_config = record { time_to_live = 0; override_domain = [] }

abbrev dns_challenge : certmagic.Solvers.Dns01.Challenge
dns_challenge = record { record_name = codes "a.b.org"; key_auth = codes "new" }

abbrev idle : Manager listing
idle = record { provider = []; records = []; zones = [] }

abbrev presented : Manager listing
presented = (present listing look dns_config dns_challenge idle).0

idle-presented : present listing look dns_config dns_challenge idle ≡ (presented, none)
unfolding present find_zone_by_fqdn lookup_soa_by_fqdn fetch_soa_by_fqdn fetch_soa_from dns_query
    str_eq verdict needs_tcp is_answered with_dot has_suffix has_prefix lookup insert
idle-presented = refl

listing-Echoes : Echoes listing
listing-Echoes zone r r' s h =
    let q : r ≡ r' = cc in (ap (λ x. x.rec_type) (sym q), ap (λ x. x.value) (sym q))

present-clean_up_example : IsCleaned listing dns_config dns_challenge idle presented
present-clean_up_example =
    present-clean_up listing look dns_config dns_challenge idle presented listing-Echoes
      idle-presented

-- A storage that keeps everything, and a solver that does nothing.
abbrev pub keeping : Storage
keeping = record {
  State = Dict Str;
  load = λ s k. lookup k s;
  broken = λ s k. false;
  store = λ k v s. (insert k v s, true);
  delete = λ k s. (delete_all k s, true);
  load-store = λ k v s good j. lookup-insert j k v s;
  load-delete = λ k s good j. lookup-delete_all j k s;
}

abbrev pub resting : Solver
resting = record { State = Unit {0}; present = λ chal s. (s, true); clean_up = λ chal s. (s, true) }

abbrev pub chal : certmagic.Solvers.Shared.Challenge
chal = record {
  challenge_type = codes "http-01";
  identifier_type = codes "dns";
  identifier_value = codes "a.b.org";
  token = codes "t";
  key_authorization = codes "t.k";
}

abbrev tokens : Dict Str
tokens = (codes "other", codes "x") ∷ []

abbrev waits : List WaitRound
waits =
    record { elapsed = 0; ended = false; checked = ok false }
    ∷ record { elapsed = 5; ended = false; checked = ok true }
    ∷ []

waits_finished : wait 3 false (pos 0) waits ≡ finished
unfolding wait in_time
waits_finished = refl

wait-finished_example : (pos 0 ≡ negsuc 0) ⊎ ((r : WaitRound) × Among r waits × IsShownBy (pos 0) r)
wait-finished_example = wait-finished 3 false (pos 0) waits waits_finished
