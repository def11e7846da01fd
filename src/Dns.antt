-- ===== src/Dns.antt =====
-- dnsutil.go: questions to name servers, the zone of a name with its cache, and the check that a
-- record has propagated. What the program reads of package dns are the types here, and what a
-- server answers is a parameter.
pub mod Zone
pub mod Propagation
pub mod Bounds
use certmagic.Prelude.{
  ℕ, Bool, true, false, ◌||◌, Option, none, some, List, [], ◌∷◌, if◌then◌else◌, Str, codes,
  has_suffix, ◌++◌,
}

-- dns.SOA: the name of its header, its name server, and the seconds until a refresh.
pub record Soa : Type 0 where
  pub name : Str
  pub ns : Str
  pub refresh : ℕ

-- dns.RR, by its Go type.
pub data ResourceRecord : Type 0 where
  soa_record : Soa → ResourceRecord
  cname_record : (name target : Str) → ResourceRecord
  txt_record : List Str → ResourceRecord
  ns_record : Str → ResourceRecord
  other_record : ResourceRecord

pub record Msg : Type 0 where
  pub rcode : ℕ
  pub truncated : Bool
  pub answer : List ResourceRecord

pub data RecType : Type 0 where
  soa_type txt_type cname_type ns_type other_type : RecType

pub data Protocol : Type 0 where
  udp tcp : Protocol

-- What an exchange gives: a message, or an error that is a timeout or not, perhaps with a message.
pub data Reply : Type 0 where
  replied : Msg → Reply
  failed : Option Msg → (timeout : Bool) → Reply

-- An exchange for a name and a type with a server; it asks for recursion.
abbrev pub Exchange : Type 0
Exchange = Protocol → Str → RecType → Str → Reply

pub data DnsError : Type 0 where
  context_ended query_failed no_authority no_nameservers unsupported_type nil_message : DnsError
  unexpected_code : ℕ → DnsError

abbrev is_truncated : Option Msg → Bool
is_truncated none = false
is_truncated (some m) = m.truncated

-- Truncation and timeouts are tried again over TCP.
unfoldable pub needs_tcp : Reply → Bool
needs_tcp (replied m) = m.truncated
needs_tcp (failed m timeout) = is_truncated m || timeout

unfoldable pub send_dns_query : Exchange → Str → RecType → Str → Reply
unfolding needs_tcp
send_dns_query exchange fqdn rtype ns =
    let first = exchange udp fqdn rtype ns in
    if needs_tcp first then exchange tcp fqdn rtype ns else first

unfoldable pub is_answered : Reply → Bool
is_answered (replied m) = elim (m.answer) [ [] ↦ false | _ ∷ _ ↦ true ]
is_answered (failed m timeout) = false

-- The loop of dnsQuery, with the last reply so far.
unfoldable pub query_from : Exchange → Str → RecType → Option Reply → List Str → Option Reply
unfolding send_dns_query is_answered
query_from exchange fqdn rtype last [] = last
query_from exchange fqdn rtype last (ns ∷ nameservers) =
    let reply = send_dns_query exchange fqdn rtype ns in
    let rest = query_from exchange fqdn rtype (some reply) nameservers in
    if is_answered reply then some reply else rest

-- No reply, nor an error, if there is no name server.
unfoldable pub dns_query : Exchange → Str → RecType → List Str → Option Reply
unfolding query_from
dns_query exchange fqdn rtype nameservers = query_from exchange fqdn rtype none nameservers

unfoldable pub with_dot : Str → Str
with_dot fqdn = if has_suffix (codes ".") fqdn then fqdn else fqdn ++ codes "."
