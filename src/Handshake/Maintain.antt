-- ===== src/Handshake/Maintain.antt =====
-- handshake.go: loading, obtaining and renewing a certificate during a handshake. `now` is the time
-- that the handshake sees, and a list tells how its waits end, one after the other.
use certmagic.Prelude.{
  ℕ, Bool, true, false, not, ◌&&◌, none, some, List, [], ◌∷◌, ltb, if◌then◌else◌, Str, elem, insert,
  Result, ok, err,
}
use certmagic.Certificate.{Certificate, empty_certificate, expires_at, Ratios, cert_needs_renewal}
use certmagic.Certificate.Names.{star, labels_of, join_labels}
use certmagic.Cache.{remove_certificate, without}
use certmagic.Handshake.{ClientHello}
use certmagic.Handshake.Server.{
  HandshakeError, no_name, timed_out, not_loaded, missing_leaf, not_obtained, not_renewed,
  not_allowed, nil_leaf, no_names, empty_choice, Reply, reply, crashed, waiting, renewal,
  ari_update, Server, Wait, closed, LoadFailure, missing, other_failure, Operations,
  HandshakeConfig, fresh_ocsp, is_revoked, cert_should_be_force_renewed,
  check_if_cert_should_be_obtained, get_name_from_client_hello,
}

-- The name with a star in place of its first label.
unfoldable pub wildcard_variant : Str → Str
wildcard_variant name = elim (labels_of name) [ [] ↦ [] | _ ∷ labels ↦ join_labels (star ∷ labels) ]

module _ {W : Type 0} {f : Ratios} (ops : Operations W) (cfg : HandshakeConfig f)
    (hello : ClientHello) (now draw : ℕ) where
  -- Either the exact name, or its wildcard if there is nothing for it.
  unfoldable pub cache_from_storage : Str → Server W → Server W × Result LoadFailure Certificate
  unfolding wildcard_variant
  cache_from_storage name s =
      let (s', loaded) = ops.cache_managed name s in
      elim loaded [
        | err missing ↦ ops.cache_managed (wildcard_variant name) s'
        | err other_failure ↦ (s', err other_failure)
        | ok cert ↦ (s', ok cert)
      ]

  -- A new staple, if the one there is not fresh; the entry of the cache is replaced.
  unfoldable pub refresh_staple : Certificate → Server W → Server W × Certificate
  unfolding fresh_ocsp
  refresh_staple cert s = elim (cert.ocsp) [
    | none ↦ (s, cert)
    | some resp ↦
        let (s', stapled) = ops.staple cert s in
        if fresh_ocsp now (cfg.responder_expiry resp) resp then (s, cert) else (
          record s' {
            cache = record s'.cache { certs = insert stapled.hash stapled s'.cache.certs };
          },
          stapled,
        )
  ]

  unfoldable pub start_ari_update : Certificate → Server W → Server W × Bool
  start_ari_update cert s =
      if not cfg.renewing.disable_ari && cfg.needs_refresh cert.ari
      then elim (cert.tls.leaf) [
        | none ↦ (s, false)
        | some leaf ↦ (
          if ltb now leaf.not_after
              then record s { background = ari_update cert ∷ s.background }
              else s,
          true,
        )
      ]
      else (s, true)

  module _ (obtain : Server W → Server W × Reply)
      (renew : Certificate → Server W → Server W × Reply) where
    -- A certificate that is to be renewed is obtained if the storage does not have it.
    unfoldable pub renew_or_obtain : Certificate → Server W → Server W × Reply
    renew_or_obtain cert s = elim (cert.names) [
      | [] ↦ (s, crashed no_names)
      | name ∷ _ ↦ if ops.has_resources name s.world then renew cert s else obtain s
    ]

    unfoldable pub renew_if_necessary : Certificate → Server W → Server W × Reply
    unfolding renew_or_obtain cert_needs_renewal
    renew_if_necessary cert s = elim (cert.tls.leaf) [
      | none ↦ (s, reply cert (some missing_leaf))
      | some leaf ↦ elim (cert_needs_renewal f cfg.renewing now draw (some leaf) cert.ari) [
        | err _ ↦ (s, crashed empty_choice)
        | ok needed ↦ if needed then renew_or_obtain cert s else (s, reply cert none)
      ]
    ]

    unfoldable pub maintained : Certificate → Server W × Bool → Server W × Reply
    unfolding renew_if_necessary cert_should_be_force_renewed
    maintained cert (s, false) = (s, crashed nil_leaf)
    maintained cert (s, true) =
        if cert_should_be_force_renewed cert then renew cert s else renew_if_necessary cert s

    unfoldable pub handshake_maintenance : Certificate → Server W → Server W × Reply
    unfolding maintained refresh_staple start_ari_update
    handshake_maintenance cert s =
        let (s', stapled) = refresh_staple cert s in
        maintained stapled (start_ari_update stapled s')

    -- An error of the maintenance is not returned.
    unfoldable pub without_error : Reply → Reply
    without_error (reply cert e) = reply cert none
    without_error r = r

    -- A failure to load, or the reply.
    unfoldable pub load_cert_from_storage : Server W → Server W × Result HandshakeError Reply
    unfolding cache_from_storage handshake_maintenance without_error
    load_cert_from_storage s = elim (get_name_from_client_hello cfg hello) [
      | none ↦ (s, err no_name)
      | some name ↦
          let (s', loaded) = cache_from_storage name s in
          elim loaded [
            | err _ ↦ (s', err not_loaded)
            | ok cert ↦ let (s'', r) = handshake_maintenance cert s' in (s'', ok (without_error r))
          ]
    ]

  -- The name is not being obtained any more, unless the handshake still waits or has panicked.
  unfoldable pub unblock_obtaining : Str → Server W × Reply → Server W × Reply
  unblock_obtaining name (s, reply cert e) =
      (record s { obtaining = without name s.obtaining }, reply cert e)
  unblock_obtaining name (s, r) = (s, r)

  -- What a handshake makes of a certificate that was just obtained.
  unfoldable pub loaded_or_not : Result HandshakeError Reply → Reply
  loaded_or_not (ok r) = r
  loaded_or_not (err e) = reply empty_certificate (some e)

  module _ (again : List (Wait W) → Server W → Server W × Reply) (waits : List (Wait W)) where
    -- Waiting for another goroutine that obtains a certificate, which does not look at the context.
    unfoldable pub wait_obtained : Server W → Server W × Reply
    wait_obtained s = elim waits [
      | [] ↦ (s, waiting)
      | closed others ∷ rest ↦ again rest (others s)
      | _ ∷ _ ↦ (s, reply empty_certificate (some timed_out))
    ]

    -- A certificate that is still usable is served while another goroutine renews it.
    unfoldable pub wait_renewed : Certificate → Server W → Server W × Reply
    unfolding wait_obtained is_revoked expires_at
    wait_renewed cert s =
        if ltb now (expires_at cert.tls.leaf) && not (is_revoked cert)
        then (s, reply cert none)
        else wait_obtained s

    -- The loading and its maintenance find the name in use, by this goroutine.
    unfoldable pub obtain_on_demand_certificate : Server W → Server W × Reply
    unfolding wait_obtained wait_renewed load_cert_from_storage unblock_obtaining loaded_or_not
    obtain_on_demand_certificate s = elim (get_name_from_client_hello cfg hello) [
      | none ↦ (s, reply empty_certificate (some no_name))
      | some name ↦
          let (s', good) = ops.obtain name (record s { obtaining = name ∷ s.obtaining }) in
          let (s'', loaded) = load_cert_from_storage wait_obtained wait_renewed s' in
          if elem name s.obtaining
          then wait_obtained s
          else unblock_obtaining name (
              if good
              then (s'', loaded_or_not loaded)
              else (s', reply empty_certificate (some not_obtained)))
    ]

    -- renewAndReload, which a background task runs too.
    unfoldable pub renew_and_reload : Str → Certificate → Server W → Server W × Reply
    unfolding check_if_cert_should_be_obtained is_revoked unblock_obtaining
    renew_and_reload name cert s = elim (check_if_cert_should_be_obtained cfg.on_demand name true) [
      | some e ↦ unblock_obtaining name (
        record s { cache = remove_certificate cert s.cache },
        reply empty_certificate (some (not_allowed e)),
      )
      | none ↦
          let (forced, (new, worked)) = ops.force_renew cert s in
          let (s', good) = ops.renew name s in
          let (s'', (reloaded, found)) = ops.reload cert s' in
          unblock_obtaining name (
            if is_revoked cert
            then (forced, reply new (if worked then none else some not_renewed))
            else if good
            then (s'', reply reloaded (if found then none else some not_loaded))
            else (s', reply empty_certificate (some not_renewed)))
    ]

    unfoldable pub renew_dynamic_certificate : Certificate → Server W → Server W × Reply
    unfolding renew_and_reload wait_renewed expires_at
    renew_dynamic_certificate cert s = elim (get_name_from_client_hello cfg hello) [
      | none ↦ (s, reply empty_certificate (some no_name))
      | some name ↦
          let held = record s { obtaining = name ∷ s.obtaining } in
          if elem name s.obtaining
          then wait_renewed cert s
          else if ltb now (expires_at cert.tls.leaf)
          then (
            record held { background = renewal name cert (is_revoked cert) ∷ s.background },
            reply cert none,
          )
          else renew_and_reload name cert held
    ]
