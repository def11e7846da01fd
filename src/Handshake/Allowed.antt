-- ===== src/Handshake/Allowed.antt =====
-- handshake.go: what a handshake does for names without a certificate in the cache.
use certmagic.Prelude.{
  ℕ, ◌≡◌, refl, ap, ◌∙◌, false, Option, some, List, [], ◌∷◌, Str, elem, str_eq_iff, str_eq_refl, ok,
  arith,
}
use certmagic.Certificate.{empty_certificate, is_empty, Ratios}
use certmagic.Cache.{without}
use certmagic.Handshake.{
  ClientHello, Found, matched, defaulted, not_found, get_certificate_from_cache,
}
use certmagic.Handshake.Server.{
  Denial, not_allowed, Reply, reply, Server, Wait, Operations, HandshakeConfig,
  check_if_cert_should_be_obtained, get_name_from_client_hello, get_cert_from_any_cert_manager,
}
use certmagic.Handshake.Serve.{
  load_or_fall_back, serve_uncached, unblock_loading, load_in_turn, wait_loaded, load_dynamically,
  found_first, get_cert_during_handshake,
}

without_missing : (name : Str) (l : List Str) → elem name l ≡ false → without name l ≡ l
unfolding without elem
without_missing name [] h = refl
without_missing name (x ∷ l) h =
    ground (arith, without_missing name l, str_eq_iff x name, str_eq_iff name x)

pub without_cons : (name : Str) (l : List Str) → elem name l ≡ false → without name (name ∷ l) ≡ l
unfolding without
without_cons name l h = ground (arith, str_eq_refl name, without_missing name l h)

pub elem-without : (name : Str) (l : List Str) → elem name (without name l) ≡ false
unfolding without elem
elem-without name [] = refl
elem-without name (x ∷ l) =
    ground (arith, elem-without name l, str_eq_iff x name, str_eq_iff name x)

-- No certificate in the cache matches the hello.
abbrev pub IsUnmatched : Found → Type 0
IsUnmatched (matched cert) = ⊥
IsUnmatched (defaulted cert) = Unit {0}
IsUnmatched not_found = Unit {0}

module _ {W : Type 0} {f : Ratios} (ops : Operations W) (cfg : HandshakeConfig f)
    (hello : ClientHello) (now draw : ℕ) where
  pub first_unmatched :
      (later : ℕ) (waits : List (Wait W)) (found : Found) (s : Server W)
      → get_certificate_from_cache cfg.split_host_port cfg.selection s.cache hello now ≡ ok found
      → IsUnmatched found
      → get_cert_during_handshake ops cfg hello now draw later waits s
        ≡ load_in_turn ops cfg hello now draw found
            (wait_loaded ops cfg hello now draw waits)
            (some (load_dynamically ops cfg hello now draw waits))
            s
  unfolding get_cert_during_handshake found_first
  first_unmatched later waits (matched cert) s e u = absurd u
  first_unmatched later waits (defaulted cert) s e u = rw (get_cert_during_handshake, e) refl
  first_unmatched later waits not_found s e u = rw (get_cert_during_handshake, e) refl

  pub in_turn :
      (found : Found) (wait : Server W → Server W × Reply)
      (load : Option (Server W → Server W × Reply)) (s : Server W) (name : Str)
      → get_name_from_client_hello cfg hello ≡ some name
      → elem name s.loading ≡ false
      → load_in_turn ops cfg hello now draw found wait load s
        ≡ unblock_loading ops cfg hello now draw name (
            serve_uncached ops cfg hello now draw name found load
              (record s { loading = name ∷ s.loading }))
  unfolding load_in_turn
  in_turn found wait load s name named free = rw (load_in_turn, named, free) refl

  -- For a name that the managers have no certificate for and that may not get one, which no other
  -- goroutine is loading, a handshake without a match in the cache changes nothing, so it neither
  -- loads nor obtains a certificate, and returns the reason as its error.
  pub get_cert_during_handshake-denied :
      (later : ℕ) (waits : List (Wait W)) (found : Found) (s : Server W) (name : Str) (e : Denial)
      → get_certificate_from_cache cfg.split_host_port cfg.selection s.cache hello now ≡ ok found
      → IsUnmatched found
      → get_name_from_client_hello cfg hello ≡ some name
      → elem name s.loading ≡ false
      → get_cert_from_any_cert_manager cfg hello ≡ ok empty_certificate
      → check_if_cert_should_be_obtained cfg.on_demand name false ≡ some e
      → get_cert_during_handshake ops cfg hello now draw later waits s
        ≡ (s, reply empty_certificate (some (not_allowed e)))
  unfolding serve_uncached load_or_fall_back unblock_loading is_empty
  get_cert_during_handshake-denied later waits found s name e looked u named free managers denied =
      let held : Server W = record s { loading = name ∷ s.loading } in
      let load = some (load_dynamically ops cfg hello now draw waits) in
      let after : List Str → Server W × Reply =
        (λ l. (record s { loading = l }, reply empty_certificate (some (not_allowed e)))) in
      let served : serve_uncached ops cfg hello now draw name found load held
          ≡ (held, reply empty_certificate (some (not_allowed e))) =
        (rw (serve_uncached, managers, load_or_fall_back, denied) refl) in
      first_unmatched later waits found s looked u
      ∙ in_turn found (wait_loaded ops cfg hello now draw waits) load s name named free
      ∙ ap (unblock_loading ops cfg hello now draw name) served
      ∙ ap after (without_cons name s.loading free)
