-- ===== src/Handshake.antt =====
-- handshake.go: the choice of a certificate for a TLS handshake from the cache.
pub mod Selector
pub mod Choice
pub mod Server
pub mod Maintain
pub mod Serve
pub mod Allowed
pub mod Unblocked
pub mod Gaps
use certmagic.Prelude.{
  ℕ, Bool, true, false, ◌&&◌, Option, none, some, List, [], ◌∷◌, ltb, ◌==◌, if◌then◌else◌, Str,
  codes, str_eq, to_lower, trim_space, Result, ok, err, ◌>>=◌,
}
use certmagic.Certificate.{Leaf, Certificate, expires_at}
use certmagic.Certificate.Names.{wildcards}
use certmagic.Cache.{Cache, get_all_matching_certs, get_all_certs}

-- What the handshake reads of a client hello: the server name, the local address of the connection,
-- if there is one, and which certificates the client supports.
pub record ClientHello : Type 0 where
  pub server_name : Str
  pub local_addr : Option Str
  pub supports : Certificate → Bool

-- The part of the config that the choice depends on. A custom selection gives a certificate or an
-- error.
pub record SelectionConfig : Type 0 where
  pub default_server_name : Str
  pub fallback_server_name : Str
  pub cert_selection : Option (ClientHello → List Certificate → Option Certificate)

-- Reading the leaf of a certificate that has none is a nil dereference.
pub data SelectPanic : Type 0 where
  nil_leaf : SelectPanic

unfoldable pub normalized_name : Str → Str
normalized_name server_name = to_lower (trim_space server_name)

-- The part of an address before a scope.
unfoldable pub before_scope : Str → Str
before_scope [] = []
before_scope (c ∷ s) = let rest = before_scope s in if c == b'%' then [] else c ∷ rest

-- `split_host_port` is net.SplitHostPort, when it gives no error.
unfoldable pub local_ip_from_conn : (Str → Option Str) → Str → Str
unfolding before_scope
local_ip_from_conn split_host_port local_addr = elim (split_host_port local_addr) [
  | some ip ↦ before_scope ip
  | none ↦ before_scope local_addr
]

-- Whether a leaf is valid at a time.
unfoldable pub is_current : ℕ → Leaf → Bool
is_current now leaf = ltb leaf.not_before now && ltb now (expires_at (some leaf))

-- A certificate that the client supports ends the loop if it is valid.
unfoldable pub try_choice :
    ℕ → Certificate → Option Leaf → Result SelectPanic Certificate → Result SelectPanic Certificate
try_choice now choice none rest = err nil_leaf
try_choice now choice (some leaf) rest = if is_current now leaf then ok choice else rest

-- The loop of DefaultCertificateSelector.
unfoldable pub select_best :
    ClientHello → ℕ → Certificate → List Certificate → Result SelectPanic Certificate
unfolding try_choice
select_best hello now best [] = ok best
select_best hello now best (choice ∷ choices) =
    let rest = select_best hello now (if hello.supports choice then choice else best) choices in
    if hello.supports choice then try_choice now choice choice.tls.leaf rest else rest

-- No certificate stands for the error that none is available.
unfoldable pub default_certificate_selector :
    ClientHello → ℕ → List Certificate → Result SelectPanic (Option Certificate)
unfolding select_best
default_certificate_selector hello now [] = ok none
default_certificate_selector hello now (choice ∷ []) = ok (some choice)
default_certificate_selector hello now (choice ∷ choice' ∷ choices) = do
  best ← select_best hello now choice (choice ∷ choice' ∷ choices)
  ok (some best)

-- The certificates that selectCert chooses from; none if it gives up.
unfoldable pub choices_for : SelectionConfig → Cache → Str → Option (List Certificate)
choices_for cfg c name = elim (get_all_matching_certs c name) [
  | [] ↦ elim (cfg.cert_selection) [ none ↦ none | some _ ↦ some (get_all_certs c) ]
  | cert ∷ certs ↦ some (cert ∷ certs)
]

-- A certificate if the second result is true.
unfoldable pub select_cert :
    SelectionConfig → Cache → ClientHello → ℕ → Str → Result SelectPanic (Option Certificate)
unfolding choices_for default_certificate_selector
select_cert cfg c hello now name = elim (choices_for cfg c name) [
  | none ↦ ok none
  | some choices ↦ elim (cfg.cert_selection) [
    | none ↦ default_certificate_selector hello now choices
    | some select ↦ ok (select hello choices)
  ]
]

-- A certificate that matches, the default one, or neither.
pub data Found : Type 0 where
  matched : Certificate → Found
  defaulted : Certificate → Found
  not_found : Found

unfoldable pub or_else :
    (Certificate → Found) → Option Certificate → Result SelectPanic Found → Result SelectPanic Found
or_else found (some cert) next = ok (found cert)
or_else found none next = next

-- The loop over the labels of the name.
unfoldable pub try_names :
    SelectionConfig
    → Cache
    → ClientHello
    → ℕ
    → List Str
    → Result SelectPanic Found
    → Result SelectPanic Found
unfolding select_cert or_else
try_names cfg c hello now [] next = next
try_names cfg c hello now (name ∷ names) next =
    let rest = try_names cfg c hello now names next in
    do tried ← select_cert cfg c hello now name; or_else matched tried rest

-- A default or fallback name, if it is set.
unfoldable pub try_default :
    SelectionConfig
    → Cache
    → ClientHello
    → ℕ
    → Str
    → Result SelectPanic Found
    → Result SelectPanic Found
unfolding select_cert or_else normalized_name
try_default cfg c hello now name next =
    let tried =
      select_cert cfg c hello now (normalized_name name) >>= λ cert. or_else defaulted cert next in
    if str_eq name [] then next else tried

unfoldable pub try_local :
    (Str → Option Str)
    → SelectionConfig
    → Cache
    → ClientHello
    → ℕ
    → Result SelectPanic Found
    → Result SelectPanic Found
unfolding select_cert or_else local_ip_from_conn
try_local split_host_port cfg c hello now next = elim (hello.local_addr) [
  | none ↦ next
  | some addr ↦ do
    tried ← select_cert cfg c hello now (local_ip_from_conn split_host_port addr)
    or_else matched tried next
]

unfoldable pub get_certificate_from_cache :
    (Str → Option Str) → SelectionConfig → Cache → ClientHello → ℕ → Result SelectPanic Found
unfolding try_names try_default try_local normalized_name
get_certificate_from_cache split_host_port cfg c hello now =
    let name = normalized_name hello.server_name in
    let fallback = try_default cfg c hello now cfg.fallback_server_name (ok not_found) in
    if str_eq name []
    then try_local split_host_port cfg c hello now
        (try_default cfg c hello now cfg.default_server_name fallback)
    else try_names cfg c hello now (name ∷ wildcards name) fallback
