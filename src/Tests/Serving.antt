-- ===== src/Tests/Serving.antt =====
-- Handshakes for names that are cached, denied or missing, with operations that all fail.
use certmagic.Prelude.{
  ℕ, ◌*◌, ◌≡◌, ◌≢◌, refl, true, false, none, some, [], Str, codes, str_eq, elem, to_lower,
  trim_space, contains_byte, has_prefix, has_suffix, ok, err, lookup, insert,
}
use certmagic.Certificate.{empty_certificate, second}
use certmagic.Certificate.Names.{wildcards, split_on, join_with}
use certmagic.Cache.{cache_certificate, get_all_matching_certs}
use certmagic.Handshake.{ClientHello, not_found, get_certificate_from_cache}
use certmagic.Handshake.Server.{
  OnDemand, decided_against, not_allowed, reply, waiting, Server, Operations, missing,
  HandshakeConfig, check_if_cert_should_be_obtained, get_name_from_client_hello,
  get_cert_from_any_cert_manager, is_almost_full,
}
use certmagic.Handshake.Maintain.{cache_from_storage}
use certmagic.Handshake.Serve.{get_cert_during_handshake}
use certmagic.Handshake.Allowed.{get_cert_during_handshake-denied}
use certmagic.Handshake.Unblocked.{get_cert_during_handshake-unblocked}
use certmagic.Handshake.Gaps.{get_cert_during_handshake-empty}
use certmagic.Tests.Certs.{thousandths, config}
use certmagic.Tests.Caching.{one, cfg}

abbrev failing : Operations ℕ
failing = record {
  cache_managed = λ name s. (s, err missing);
  obtain = λ name s. (record s { world = 5 }, false);
  renew = λ name s. (s, false);
  force_renew = λ cert s. (s, (empty_certificate, false));
  reload = λ cert s. (s, (empty_certificate, false));
  has_resources = λ name w. false;
  staple = λ cert s. (s, cert);
}

abbrev strict : OnDemand
strict = record { decision_func = some (λ name. false); host_allowlist = []; managers = [] }

abbrev on_demand_cfg : HandshakeConfig thousandths
on_demand_cfg = record {
  selection = cfg;
  renewing = record config { disable_ari = true };
  on_demand = some strict;
  to_ascii = some;
  split_host_port = λ addr. none;
  parse = λ der. none;
  hash_chain = λ chain. [];
  needs_refresh = λ ari. false;
  responder_expiry = λ resp. none;
}

abbrev managed_cfg : HandshakeConfig thousandths
managed_cfg = record on_demand_cfg { on_demand = none }

hello_for : Str → ClientHello
hello_for name = record { server_name = name; local_addr = none; supports = λ cert. true }

abbrev other : Str
other = codes "b.org"

-- A capacity of two, with one certificate; or a capacity of one.
abbrev server : Server ℕ
server = record { cache = one; loading = []; obtaining = []; background = []; world = 0 }

abbrev full : Server ℕ
full = record server { cache = record one { options = record one.options { capacity = 1 } } }

other_missing :
    get_certificate_from_cache on_demand_cfg.split_host_port on_demand_cfg.selection server.cache
      (hello_for other)
      second
    ≡ ok not_found
unfolding get_certificate_from_cache hello_for str_eq to_lower trim_space get_all_matching_certs
    lookup cache_certificate insert wildcards split_on join_with
other_missing = refl

other_missing_full :
    get_certificate_from_cache managed_cfg.split_host_port managed_cfg.selection full.cache
      (hello_for other)
      second
    ≡ ok not_found
unfolding get_certificate_from_cache hello_for str_eq to_lower trim_space get_all_matching_certs
    lookup cache_certificate insert wildcards split_on join_with
other_missing_full = refl

other_name : get_name_from_client_hello on_demand_cfg (hello_for other) ≡ some other
unfolding get_name_from_client_hello hello_for trim_space
other_name = refl

no_manager : get_cert_from_any_cert_manager on_demand_cfg (hello_for other) ≡ ok empty_certificate
unfolding get_cert_from_any_cert_manager
no_manager = refl

other_denied :
    check_if_cert_should_be_obtained on_demand_cfg.on_demand other false ≡ some decided_against
unfolding check_if_cert_should_be_obtained str_eq trim_space has_prefix has_suffix contains_byte
other_denied = refl

get_cert_during_handshake-denied_example :
    get_cert_during_handshake failing on_demand_cfg (hello_for other) second 0 second [] server
    ≡ (server, reply empty_certificate (some (not_allowed decided_against)))
unfolding elem
get_cert_during_handshake-denied_example =
    get_cert_during_handshake-denied failing on_demand_cfg (hello_for other) second 0 second []
      not_found server other decided_against other_missing tt other_name refl no_manager
      other_denied

denied_ends :
    (get_cert_during_handshake failing on_demand_cfg (hello_for other) second 0 second [] server).1
    ≢ waiting
unfolding elem
denied_ends e =
    let q =
      get_cert_during_handshake-denied failing on_demand_cfg (hello_for other) second 0 second []
        not_found server other decided_against other_missing tt other_name refl no_manager
        other_denied in
    cc

get_cert_during_handshake-unblocked_example :
    elem other
      (get_cert_during_handshake failing on_demand_cfg
        (hello_for other)
        second
        0
        second
        []
        server).0.loading
    ≡ false
unfolding elem
get_cert_during_handshake-unblocked_example =
    get_cert_during_handshake-unblocked failing on_demand_cfg (hello_for other) second 0 second []
      not_found server other other_missing tt other_name refl denied_ends

other_qualifies : check_if_cert_should_be_obtained managed_cfg.on_demand other false ≡ none
unfolding check_if_cert_should_be_obtained str_eq trim_space has_prefix has_suffix contains_byte
other_qualifies = refl

almost_full : is_almost_full full.cache ≡ true
unfolding is_almost_full cache_certificate lookup insert
almost_full = refl

get_cert_during_handshake-empty_example :
    (get_cert_during_handshake failing managed_cfg (hello_for other) second 0 second [] full).1
    ≡ reply empty_certificate none
unfolding elem cache_from_storage get_name_from_client_hello
get_cert_during_handshake-empty_example =
    get_cert_during_handshake-empty failing managed_cfg (hello_for other) second 0 second []
      not_found full other missing other_missing_full tt other_name refl refl almost_full
      other_qualifies refl

abbrev late_time : ℕ
late_time = 99 * second

abbrev known : Str
known = codes "example.com"

-- Renewal information is in use, and needs a refresh.
abbrev ari_cfg : HandshakeConfig thousandths
ari_cfg = record on_demand_cfg { renewing = config; needs_refresh = λ ari. true }
