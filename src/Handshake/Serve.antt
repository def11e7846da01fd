-- ===== src/Handshake/Serve.antt =====
-- handshake.go: getCertDuringHandshake and optionalMaintenance.
use certmagic.Prelude.{
  ℕ, false, not, ◌&&◌, ◌||◌, Option, none, some, List, [], ◌∷◌, if◌then◌else◌, Str, elem, Result,
  ok, err,
}
use certmagic.Certificate.{Certificate, empty_certificate, is_empty, expired, Ratios}
use certmagic.Cache.{without}
use certmagic.Handshake.{
  ClientHello, Found, matched, defaulted, get_certificate_from_cache, SelectPanic,
}
use certmagic.Handshake.Server.{
  nil_conn, HandshakeError, no_name, timed_out, context_ended, not_allowed, no_certificate,
  nil_leaf, Reply, reply, crashed, waiting, Server, Wait, timeout, done, closed, Operations,
  HandshakeConfig, is_on_demand, check_if_cert_should_be_obtained, is_almost_full,
  get_name_from_client_hello, get_cert_from_any_cert_manager,
}
use certmagic.Handshake.Maintain.{
  handshake_maintenance, load_cert_from_storage, obtain_on_demand_certificate,
  renew_dynamic_certificate,
}

module _ {W : Type 0} {f : Ratios} (ops : Operations W) (cfg : HandshakeConfig f)
    (hello : ClientHello) (now draw : ℕ) where
  -- An error; the log reads the remote address of the connection, which may be nil.
  unfoldable pub no_match : Str → Option Str → Reply
  no_match name none = crashed nil_conn
  no_match name (some addr) = reply empty_certificate (some (no_certificate name))

  -- The default certificate, or an error.
  unfoldable pub fall_back : Str → Found → Reply
  unfolding no_match
  fall_back name (defaulted cert) = reply cert none
  fall_back name _ = no_match name hello.local_addr

  -- After the managers had none; `load` is the loading from storage, if the handshake may do that.
  unfoldable pub load_or_fall_back :
      Str → Found → Option (Server W → Server W × Reply) → Server W → Server W × Reply
  unfolding fall_back check_if_cert_should_be_obtained is_almost_full is_on_demand
  load_or_fall_back name found load s =
      elim (check_if_cert_should_be_obtained cfg.on_demand name false) [
        | some e ↦ (s, reply empty_certificate (some (not_allowed e)))
        | none ↦ elim load [
          | none ↦ (s, fall_back name found)
          | some dynamically ↦
              if is_on_demand cfg.on_demand || is_almost_full s.cache
              then dynamically s
              else (s, fall_back name found)
        ]
      ]

  unfoldable pub serve_uncached :
      Str → Found → Option (Server W → Server W × Reply) → Server W → Server W × Reply
  unfolding load_or_fall_back get_cert_from_any_cert_manager is_empty
  serve_uncached name found load s = elim (get_cert_from_any_cert_manager cfg hello) [
    | err e ↦ (s, reply empty_certificate (some e))
    | ok cert ↦
        if not (is_empty cert) then (s, reply cert none) else load_or_fall_back name found load s
  ]

  -- The deferred function: others are unblocked, also by a panic.
  unfoldable pub unblock_loading : Str → Server W × Reply → Server W × Reply
  unblock_loading name (s, waiting) = (s, waiting)
  unblock_loading name (s, r) = (record s { loading = without name s.loading }, r)

  -- Without a match in the cache: wait for the goroutine that loads the name, or be that one.
  unfoldable pub load_in_turn :
      Found
      → (Server W → Server W × Reply)
      → Option (Server W → Server W × Reply)
      → Server W
      → Server W × Reply
  unfolding serve_uncached unblock_loading get_name_from_client_hello
  load_in_turn found wait load s = elim (get_name_from_client_hello cfg hello) [
    | none ↦ (s, reply empty_certificate (some no_name))
    | some name ↦
        if elem name s.loading
        then wait s
        else unblock_loading name
            (serve_uncached name found load (record s { loading = name ∷ s.loading }))
  ]

  unfoldable pub waited : Wait W → (Server W → Server W × Reply) → Server W → Server W × Reply
  waited timeout next s = (s, reply empty_certificate (some timed_out))
  waited done next s = (s, reply empty_certificate (some context_ended))
  waited (closed others) next s = next (others s)

  -- getCertDuringHandshake when it may not load or obtain, after a wait.
  unfoldable pub found_again :
      Result SelectPanic Found → (Server W → Server W × Reply) → Server W → Server W × Reply
  unfolding load_in_turn
  found_again (err _) wait s = (s, crashed nil_leaf)
  found_again (ok (matched cert)) wait s = (s, reply cert none)
  found_again (ok found) wait s = load_in_turn found wait none s

  unfoldable pub get_cert_again : List (Wait W) → Server W → Server W × Reply
  unfolding found_again waited
  get_cert_again [] s =
      found_again (get_certificate_from_cache cfg.split_host_port cfg.selection s.cache hello now)
        (λ s'. (s', waiting)) s
  get_cert_again (w ∷ waits) s =
      let next = get_cert_again waits in
      found_again (get_certificate_from_cache cfg.split_host_port cfg.selection s.cache hello now)
        (waited w next) s

  -- `later` is the time after the maintenance.
  unfoldable pub served_anyway : ℕ → Certificate → Server W × Reply → Server W × Reply
  unfolding expired
  served_anyway later cert (s, reply new (some e)) =
      (s, if expired later cert then reply cert (some e) else reply cert none)
  served_anyway later cert (s, r) = (s, r)

  unfoldable pub optional_maintenance :
      ℕ → List (Wait W) → Certificate → Server W → Server W × Reply
  unfolding served_anyway handshake_maintenance obtain_on_demand_certificate
      renew_dynamic_certificate
  optional_maintenance later waits cert s = served_anyway later cert (
      handshake_maintenance ops cfg hello now draw
        (obtain_on_demand_certificate ops cfg hello now draw get_cert_again waits)
        (renew_dynamic_certificate ops cfg hello now draw get_cert_again waits) cert s)

  -- What is loaded is served, whatever its maintenance said; else it is obtained on demand.
  unfoldable pub loaded_or_obtained :
      List (Wait W) → Server W × Result HandshakeError Reply → Server W × Reply
  unfolding obtain_on_demand_certificate is_on_demand
  loaded_or_obtained waits (s, ok r) = (s, r)
  loaded_or_obtained waits (s, err _) =
      if is_on_demand cfg.on_demand
      then obtain_on_demand_certificate ops cfg hello now draw get_cert_again waits s
      else (s, reply empty_certificate none)

  unfoldable pub load_dynamically : List (Wait W) → Server W → Server W × Reply
  unfolding loaded_or_obtained load_cert_from_storage
  load_dynamically waits s = loaded_or_obtained waits (
      load_cert_from_storage ops cfg hello now draw
        (obtain_on_demand_certificate ops cfg hello now draw get_cert_again waits)
        (renew_dynamic_certificate ops cfg hello now draw get_cert_again waits) s)

  unfoldable pub wait_loaded : List (Wait W) → Server W → Server W × Reply
  unfolding waited get_cert_again
  wait_loaded [] s = (s, waiting)
  wait_loaded (w ∷ waits) s = waited w (get_cert_again waits) s

  unfoldable pub found_first :
      ℕ → List (Wait W) → Result SelectPanic Found → Server W → Server W × Reply
  unfolding optional_maintenance load_in_turn wait_loaded load_dynamically is_on_demand
  found_first later waits (err _) s = (s, crashed nil_leaf)
  found_first later waits (ok (matched cert)) s =
      if cert.managed && is_on_demand cfg.on_demand
      then optional_maintenance later waits cert s
      else (s, reply cert none)
  found_first later waits (ok found) s =
      load_in_turn found (wait_loaded waits) (some (load_dynamically waits)) s

  -- When it may load or obtain a certificate.
  unfoldable pub get_cert_during_handshake : ℕ → List (Wait W) → Server W → Server W × Reply
  unfolding found_first
  get_cert_during_handshake later waits s =
      found_first later waits
        (get_certificate_from_cache cfg.split_host_port cfg.selection s.cache hello now) s
