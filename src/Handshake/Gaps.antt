-- ===== src/Handshake/Gaps.antt =====
-- handshake.go: an empty certificate without an error, and obtaining without asking.
use certmagic.Prelude.{
  ℕ, ◌≡◌, refl, ap, ◌∙◌, Bool, true, false, ◌||◌, none, some, List, ◌∷◌, if◌then◌else◌, Str, elem,
  Result, ok, err,
}
use certmagic.Certificate.{Certificate, empty_certificate, is_empty, Ratios}
use certmagic.Handshake.{ClientHello, Found, get_certificate_from_cache}
use certmagic.Handshake.Server.{
  HandshakeError, not_obtained, not_loaded, Reply, reply, Server, Wait, Operations, LoadFailure,
  HandshakeConfig, is_on_demand, check_if_cert_should_be_obtained, is_almost_full,
  get_name_from_client_hello, get_cert_from_any_cert_manager,
}
use certmagic.Handshake.Maintain.{
  cache_from_storage, load_cert_from_storage, unblock_obtaining, wait_obtained, wait_renewed,
  loaded_or_not, obtain_on_demand_certificate, renew_dynamic_certificate,
}
use certmagic.Handshake.Serve.{
  load_or_fall_back, serve_uncached, unblock_loading, loaded_or_obtained, load_dynamically,
  wait_loaded, get_cert_again, get_cert_during_handshake,
}
use certmagic.Handshake.Allowed.{IsUnmatched, first_unmatched, in_turn}

module _ {W : Type 0} {f : Ratios} (ops : Operations W) (cfg : HandshakeConfig f)
    (hello : ClientHello) (now draw : ℕ) where
  managers_none :
      cfg.on_demand ≡ none → get_cert_from_any_cert_manager cfg hello ≡ ok empty_certificate
  unfolding get_cert_from_any_cert_manager
  managers_none off = rw (get_cert_from_any_cert_manager, off) refl

  not_in_storage :
      (obtain : Server W → Server W × Reply) (renew : Certificate → Server W → Server W × Reply)
      (s : Server W) (name : Str) (e : LoadFailure)
      → get_name_from_client_hello cfg hello ≡ some name
      → (cache_from_storage ops cfg hello now draw name s).1 ≡ err e
      → (load_cert_from_storage ops cfg hello now draw obtain renew s).1 ≡ err not_loaded
  unfolding load_cert_from_storage
  not_in_storage obtain renew s name e named gone = rw (load_cert_from_storage, named, gone) refl

  loaded_empty :
      (waits : List (Wait W)) (r : Server W × Result HandshakeError Reply) (e : HandshakeError)
      → cfg.on_demand ≡ none
      → r.1 ≡ err e
      → (loaded_or_obtained ops cfg hello now draw waits (r.0, r.1)).1
        ≡ reply empty_certificate none
  unfolding loaded_or_obtained is_on_demand
  loaded_empty waits r e off bad = rw (bad, loaded_or_obtained, is_on_demand, off) refl

  loaded_anyway :
      (name : Str) (found : Found) (dynamically : Server W → Server W × Reply) (s : Server W)
      → check_if_cert_should_be_obtained cfg.on_demand name false ≡ none
      → is_almost_full s.cache ≡ true
      → load_or_fall_back ops cfg hello now draw name found (some dynamically) s ≡ dynamically s
  unfolding load_or_fall_back
  loaded_anyway name found dynamically s allowed full =
      rw (load_or_fall_back, allowed, full) (either (is_on_demand cfg.on_demand) _ _)
    where
      either : (b : Bool) (x y : Server W × Reply) → (if b || true then x else y) ≡ x
      either true x y = refl
      either false x y = refl

  replied :
      (name : Str) (s : Server W) (r : Reply)
      → r ≡ reply empty_certificate none
      → (unblock_loading ops cfg hello now draw name (s, r)).1 ≡ reply empty_certificate none
  unfolding unblock_loading
  replied name s r e = rw (e, unblock_loading) refl

  -- Without on-demand certificates and with a cache that is almost full, a handshake without a match
  -- in the cache, for a name that no other goroutine is loading, that qualifies for a certificate, and
  -- that cannot be loaded from the storage, returns an empty certificate and no error, even if there
  -- is a default certificate.
  pub get_cert_during_handshake-empty :
      (later : ℕ) (waits : List (Wait W)) (found : Found) (s : Server W) (name : Str)
      (e : LoadFailure)
      → get_certificate_from_cache cfg.split_host_port cfg.selection s.cache hello now ≡ ok found
      → IsUnmatched found
      → get_name_from_client_hello cfg hello ≡ some name
      → elem name s.loading ≡ false
      → cfg.on_demand ≡ none
      → is_almost_full s.cache ≡ true
      → check_if_cert_should_be_obtained cfg.on_demand name false ≡ none
      → (cache_from_storage ops cfg hello now draw name (record s { loading = name ∷ s.loading })).1
        ≡ err e
      → (get_cert_during_handshake ops cfg hello now draw later waits s).1
        ≡ reply empty_certificate none
  unfolding serve_uncached is_empty load_dynamically
  get_cert_during_handshake-empty later waits found s name e looked u named free off full allowed
        gone =
      let held : Server W = record s { loading = name ∷ s.loading } in
      let load = some (load_dynamically ops cfg hello now draw waits) in
      let obtain =
        obtain_on_demand_certificate ops cfg hello now draw (get_cert_again ops cfg hello now draw)
          waits in
      let renew =
        renew_dynamic_certificate ops cfg hello now draw (get_cert_again ops cfg hello now draw)
          waits in
      let stored = load_cert_from_storage ops cfg hello now draw obtain renew held in
      let dynamic : serve_uncached ops cfg hello now draw name found load held
          ≡ load_dynamically ops cfg hello now draw waits held =
        (rw (serve_uncached, managers_none off)
          (loaded_anyway name found (load_dynamically ops cfg hello now draw waits) held allowed
            full)) in
      let served : (serve_uncached ops cfg hello now draw name found load held).1
          ≡ reply empty_certificate none =
        (ap (λ x. x.1) dynamic
          ∙ loaded_empty waits stored not_loaded off
              (not_in_storage obtain renew held name e named gone)) in
      ap (λ x. x.1)
        (first_unmatched ops cfg hello now draw later waits found s looked u
          ∙ in_turn ops cfg hello now draw found (wait_loaded ops cfg hello now draw waits) load s
              name named free)
      ∙ replied name _ _ served

  -- What a handshake does after it tried to obtain a certificate for a name.
  module _ (waits : List (Wait W)) where
    unfoldable pub after_obtaining : Str → Server W × Bool → Server W × Reply
    after_obtaining name (s, good) =
        let again = get_cert_again ops cfg hello now draw in
        let loaded =
          load_cert_from_storage ops cfg hello now draw
            (wait_obtained ops cfg hello now draw again waits)
            (wait_renewed ops cfg hello now draw again waits) s in
        unblock_obtaining ops cfg hello now draw name (
          if good
          then (loaded.0, loaded_or_not ops cfg hello now draw loaded.1)
          else (s, reply empty_certificate (some not_obtained)))
