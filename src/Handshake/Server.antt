-- ===== src/Handshake/Server.antt =====
-- handshake.go: the state that handshakes share, what they call, and the checks of a name.
use certmagic.Prelude.{
  ℕ, ◌*◌, ◌+◌, ◌/◌, ◌-◌, Bool, true, false, not, ◌&&◌, Option, none, some, List, [], ◌∷◌, ltb, leb,
  length, if◌then◌else◌, Str, str_eq, elem, trim_space, Result, ok, err,
}
use certmagic.Certificate.{
  Leaf, OcspResponse, revoked, RenewalInfo, TlsCertificate, Certificate, empty_certificate, Ratios,
  RenewalConfig,
}
use certmagic.Certificate.Filling.{FillError, fill_cert_from_leaf}
use certmagic.Certificate.Subject.{subject_qualifies_for_cert}
use certmagic.Cache.{Cache}
use certmagic.Handshake.{ClientHello, SelectionConfig, normalized_name, local_ip_from_conn}

-- Why a name may not get a certificate.
pub data Denial : Type 0 where
  not_on_demand not_qualified decided_against not_listed : Denial

pub data HandshakeError : Type 0 where
  no_name timed_out context_ended manager_failed not_loaded missing_leaf not_obtained not_renewed :
      HandshakeError
  not_filled : FillError → HandshakeError
  not_allowed : Denial → HandshakeError
  no_certificate : Str → HandshakeError

pub data HandshakePanic : Type 0 where
  nil_leaf no_names empty_choice nil_conn : HandshakePanic

-- What a handshake returns; or it still waits for another one.
pub data Reply : Type 0 where
  reply : Certificate → Option HandshakeError → Reply
  crashed : HandshakePanic → Reply
  waiting : Reply

-- What goes on in the background: the renewal of a certificate for a name, which may be revoked, and
-- the update of renewal information.
pub data Task : Type 0 where
  renewal : Str → Certificate → Bool → Task
  ari_update : Certificate → Task

-- The cache, the names with an entry in certLoadWaitChans and in obtainCertWaitChans, the tasks that
-- were started, and the rest of the world, with the storage.
pub record Server (W : Type 0) : Type 0 where
  pub cache : Cache
  pub loading : List Str
  pub obtaining : List Str
  pub background : List Task
  pub world : W

-- How a wait on a channel ends; others have changed the state when it is closed.
pub data Wait (W : Type 0) : Type 0 where
  timeout done : Wait W
  closed : (Server W → Server W) → Wait W

pub data LoadFailure : Type 0 where
  missing other_failure : LoadFailure

-- The operations of the other files: CacheManagedCertificate, ObtainCertAsync, RenewCertAsync,
-- forceRenew, reloadManagedCertificate, storageHasCertResourcesAnyIssuer, and stapleOCSP, with what it
-- leaves in the certificate. A Boolean is true if there was no error.
pub record Operations (W : Type 0) : Type 0 where
  pub cache_managed : Str → Server W → Server W × Result LoadFailure Certificate
  pub obtain : Str → Server W → Server W × Bool
  pub renew : Str → Server W → Server W × Bool
  pub force_renew : Certificate → Server W → Server W × (Certificate × Bool)
  pub reload : Certificate → Server W → Server W × (Certificate × Bool)
  pub has_resources : Str → W → Bool
  pub staple : Certificate → Server W → Server W × Certificate

-- An external manager gives a certificate, none, or an error.
pub record OnDemand : Type 0 where
  pub decision_func : Option (Str → Bool)
  pub host_allowlist : List Str
  pub managers : List (ClientHello → Option (Option TlsCertificate))

-- The config, and what it uses of other packages: idna.Lookup.ToASCII, net.SplitHostPort, parsing and
-- hashing of certificates, ARI's NeedsRefresh, and the expiry of an OCSP responder's certificate.
pub record HandshakeConfig (f : Ratios) : Type 0 where
  pub selection : SelectionConfig
  pub renewing : RenewalConfig f
  pub on_demand : Option OnDemand
  pub to_ascii : Str → Option Str
  pub split_host_port : Str → Option Str
  pub parse : Str → Option Leaf
  pub hash_chain : List Str → Str
  pub needs_refresh : RenewalInfo → Bool
  pub responder_expiry : OcspResponse → Option ℕ

unfoldable pub is_on_demand : Option OnDemand → Bool
is_on_demand none = false
is_on_demand (some _) = true

-- checkIfCertShouldBeObtained: the reason against it.
unfoldable pub decide : OnDemand → Str → Option Denial
decide on_demand name = elim (on_demand.decision_func) [
  | some allows ↦ if allows name then none else some decided_against
  | none ↦ elim (on_demand.host_allowlist) [
    | [] ↦ none
    | host ∷ hosts ↦ if elem name (host ∷ hosts) then none else some not_listed
  ]
]

unfoldable pub check_if_cert_should_be_obtained :
    Option OnDemand → Str → (require_on_demand : Bool) → Option Denial
unfolding decide subject_qualifies_for_cert is_on_demand
check_if_cert_should_be_obtained on_demand name require_on_demand =
    if require_on_demand && not (is_on_demand on_demand)
    then some not_on_demand
    else if not (subject_qualifies_for_cert name)
    then some not_qualified
    else elim on_demand [ none ↦ none | some o ↦ decide o name ]

-- The end of a response's validity.
unfoldable pub ocsp_end : Option ℕ → OcspResponse → ℕ
ocsp_end none resp = resp.next_update
ocsp_end (some expiry) resp = if ltb expiry resp.next_update then expiry else resp.next_update

-- ocsp.go: the time is before the middle of the response's validity.
unfoldable pub fresh_ocsp : ℕ → Option ℕ → OcspResponse → Bool
unfolding ocsp_end
fresh_ocsp now responder resp =
    let next = ocsp_end responder resp in
    if leb resp.this_update next
    then ltb now (resp.this_update + (next - resp.this_update) / 2)
    else ltb now (resp.this_update - (resp.this_update - next) / 2)

unfoldable pub is_revoked : Certificate → Bool
is_revoked cert = elim (cert.ocsp) [
  | none ↦ false
  | some resp ↦ elim (resp.status) [ revoked ↦ true | _ ↦ false ]
]

-- maintain.go
unfoldable pub cert_should_be_force_renewed : Certificate → Bool
unfolding is_revoked
cert_should_be_force_renewed cert =
    cert.managed && (elim (cert.names) [ [] ↦ false | _ ∷ _ ↦ true ] && is_revoked cert)

-- 90 % of a capacity that is not zero.
unfoldable pub is_almost_full : Cache → Bool
is_almost_full c = ltb 0 c.options.capacity && leb (9 * c.options.capacity) (10 * length c.certs)

module _ {f : Ratios} (cfg : HandshakeConfig f) (hello : ClientHello) where
  unfoldable pub get_name_from_client_hello : Option Str
  unfolding normalized_name local_ip_from_conn
  get_name_from_client_hello = elim (cfg.to_ascii (trim_space hello.server_name)) [
    | none ↦ none
    | some [] ↦
        if str_eq cfg.selection.default_server_name []
        then some (elim (hello.local_addr) [
          | none ↦ []
          | some addr ↦ local_ip_from_conn cfg.split_host_port addr
        ])
        else some (normalized_name cfg.selection.default_server_name)
    | some (c ∷ name) ↦ some (c ∷ name)
  ]

  -- The loop over the managers: the first certificate, or whether the last one gave an error.
  unfoldable pub ask_managers :
      (failed : Bool)
      → List (ClientHello → Option (Option TlsCertificate))
      → Option (Option TlsCertificate)
  ask_managers failed [] = if failed then none else some none
  ask_managers failed (manager ∷ managers) = elim (manager hello) [
    | none ↦ ask_managers true managers
    | some none ↦ ask_managers false managers
    | some (some tls) ↦ some (some tls)
  ]

  unfoldable pub filled : TlsCertificate → Result HandshakeError Certificate
  unfolding fill_cert_from_leaf
  filled tls = elim (fill_cert_from_leaf cfg.parse cfg.hash_chain empty_certificate tls) [
    | err e ↦ err (not_filled e)
    | ok cert ↦ ok cert
  ]

  unfoldable pub get_cert_from_any_cert_manager : Result HandshakeError Certificate
  unfolding ask_managers filled
  get_cert_from_any_cert_manager = elim (cfg.on_demand) [
    | none ↦ ok empty_certificate
    | some o ↦ elim (ask_managers false o.managers) [
      | none ↦ err manager_failed
      | some none ↦ ok empty_certificate
      | some (some tls) ↦ filled tls
    ]
  ]
