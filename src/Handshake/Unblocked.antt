-- ===== src/Handshake/Unblocked.antt =====
-- handshake.go: the names that are being loaded, and a handshake that may not load or obtain.
use certmagic.Prelude.{
  Option, none, some, ℕ, ◌≡◌, ◌≢◌, inl, inr, refl, ap, ◌∙◌, false, Bool-cases, Option-cases, none,
  some, List, [], ◌∷◌, Str, elem, Result, Result-cases, ok, err,
}
use certmagic.Certificate.{empty_certificate, is_empty, Ratios}
use certmagic.Handshake.{
  ClientHello, Found, matched, defaulted, not_found, get_certificate_from_cache, SelectPanic,
}
use certmagic.Handshake.Server.{
  not_allowed, Reply, reply, crashed, waiting, Server, Wait, Operations, HandshakeConfig,
  check_if_cert_should_be_obtained, get_name_from_client_hello, get_cert_from_any_cert_manager,
}
use certmagic.Handshake.Serve.{
  no_match, fall_back, load_or_fall_back, serve_uncached, unblock_loading, load_in_turn,
  found_again, get_cert_again, wait_loaded, load_dynamically, get_cert_during_handshake,
}
use certmagic.Handshake.Allowed.{IsUnmatched, first_unmatched, in_turn, without_cons, elem-without}

module _ {W : Type 0} {f : Ratios} (ops : Operations W) (cfg : HandshakeConfig f)
    (hello : ClientHello) (now draw : ℕ) where
  unblocked :
      (name : Str) (s : Server W) (r : Reply)
      → r ≢ waiting
      → elem name (unblock_loading ops cfg hello now draw name (s, r)).0.loading ≡ false
  unfolding unblock_loading
  unblocked name s (reply cert e) h = elem-without name s.loading
  unblocked name s (crashed p) h = elem-without name s.loading
  unblocked name s waiting h = absurd (h refl)

  unblock-reply :
      (name : Str) (s : Server W) (r : Reply)
      → (unblock_loading ops cfg hello now draw name (s, r)).1 ≡ r
  unfolding unblock_loading
  unblock-reply name s (reply cert e) = refl
  unblock-reply name s (crashed p) = refl
  unblock-reply name s waiting = refl

  -- A handshake that was the one to load a name, and that does not wait any more, has unblocked the
  -- name, whether it returned a certificate or an error or panicked.
  pub get_cert_during_handshake-unblocked :
      (later : ℕ) (waits : List (Wait W)) (found : Found) (s : Server W) (name : Str)
      → get_certificate_from_cache cfg.split_host_port cfg.selection s.cache hello now ≡ ok found
      → IsUnmatched found
      → get_name_from_client_hello cfg hello ≡ some name
      → elem name s.loading ≡ false
      → (get_cert_during_handshake ops cfg hello now draw later waits s).1 ≢ waiting
      → elem name (get_cert_during_handshake ops cfg hello now draw later waits s).0.loading ≡ false
  get_cert_during_handshake-unblocked later waits found s name looked u named free ended =
      let load = some (load_dynamically ops cfg hello now draw waits) in
      let served =
        serve_uncached ops cfg hello now draw name found load
          (record s { loading = name ∷ s.loading }) in
      let run : get_cert_during_handshake ops cfg hello now draw later waits s
          ≡ unblock_loading ops cfg hello now draw name (served.0, served.1) =
        (first_unmatched ops cfg hello now draw later waits found s looked u
          ∙ in_turn ops cfg hello now draw found (wait_loaded ops cfg hello now draw waits) load s
              name named free) in
      ap (λ x. elem name x.0.loading) run
      ∙ unblocked name served.0 served.1
          (λ e. ended (ap (λ x. x.1) run ∙ (unblock-reply name served.0 served.1 ∙ e)))

  no_match-settled :
      (name : Str) (addr : Option Str) → no_match ops cfg hello now draw name addr ≢ waiting
  unfolding no_match
  no_match-settled name none e = cc
  no_match-settled name (some addr) e = cc

  fall_back-settled :
      (name : Str) (found : Found) → fall_back ops cfg hello now draw name found ≢ waiting
  unfolding fall_back
  fall_back-settled name (defaulted cert) e = cc
  fall_back-settled name (matched cert) e = no_match-settled name hello.local_addr e
  fall_back-settled name not_found e = no_match-settled name hello.local_addr e

  unchanged :
      (name : Str) (s : Server W) (r : Reply)
      → elem name s.loading ≡ false
      → r ≢ waiting
      → (unblock_loading ops cfg hello now draw name
          ((record s { loading = name ∷ s.loading }), r)).0
        ≡ s
  unfolding unblock_loading
  unchanged name s (reply cert e) free h =
      ap (λ l. record s { loading = l }) (without_cons name s.loading free)
  unchanged name s (crashed p) free h =
      ap (λ l. record s { loading = l }) (without_cons name s.loading free)
  unchanged name s waiting free h = absurd (h refl)

  -- Without loading, a reply without waiting, and no change.
  kept :
      (name : Str) (found : Found) (s : Server W)
      → (r : Reply) × (r ≢ waiting)
        × (serve_uncached ops cfg hello now draw name found none s ≡ (s, r))
  unfolding serve_uncached load_or_fall_back
  kept name found s = elim (Result-cases (get_cert_from_any_cert_manager cfg hello)) [
    | inr (e, bad) ↦ (reply empty_certificate (some e), (λ q. cc), rw (serve_uncached, bad) refl)
    | inl (cert, good) ↦ elim (Bool-cases (is_empty cert)) [
      | inr given ↦ (reply cert none, (λ q. cc), rw (serve_uncached, good, given) refl)
      | inl nothing ↦
          elim (Option-cases (check_if_cert_should_be_obtained cfg.on_demand name false)) [
            | inr (e, denied) ↦ (
              reply empty_certificate (some (not_allowed e)),
              (λ q. cc),
              rw (serve_uncached, good, nothing, load_or_fall_back, denied) refl,
            )
            | inl allowed ↦ (
              fall_back ops cfg hello now draw name found,
              fall_back-settled name found,
              rw (serve_uncached, good, nothing, load_or_fall_back, allowed) refl,
            )
          ]
    ]
  ]

  not_loaded_in_turn :
      (found : Found) (wait : Server W → Server W × Reply) (s : Server W)
      → ((s' : Server W) → (wait s').0 ≡ s')
      → (load_in_turn ops cfg hello now draw found wait none s).0 ≡ s
  unfolding load_in_turn
  not_loaded_in_turn found wait s waits =
      elim (Option-cases (get_name_from_client_hello cfg hello)) [
        | inl nameless ↦ rw (load_in_turn, nameless) refl
        | inr (name, named) ↦ elim (Bool-cases (elem name s.loading)) [
          | inl busy ↦ rw (load_in_turn, named, busy) (waits s)
          | inr free ↦
              let held : Server W = record s { loading = name ∷ s.loading } in
              let (r, settled, served) = kept name found held in
              ap (λ x. x.0)
                (in_turn ops cfg hello now draw found wait none s name named free
                  ∙ ap (unblock_loading ops cfg hello now draw name) served)
              ∙ unchanged name s r free settled
        ]
      ]

  again :
      (r : Result SelectPanic Found) (s : Server W)
      → (found_again ops cfg hello now draw r (λ s'. (s', waiting)) s).0 ≡ s
  unfolding found_again
  again (err e) s = refl
  again (ok (matched cert)) s = refl
  again (ok (defaulted cert)) s =
      not_loaded_in_turn (defaulted cert) (λ s'. (s', waiting)) s (λ s'. refl)
  again (ok not_found) s = not_loaded_in_turn not_found (λ s'. (s', waiting)) s (λ s'. refl)

  -- A handshake that waited for another one and looks again neither loads nor obtains nor renews a
  -- certificate: as long as it waits for no other, nothing is changed.
  pub get_cert_again-keeps : (s : Server W) → (get_cert_again ops cfg hello now draw [] s).0 ≡ s
  unfolding get_cert_again
  get_cert_again-keeps s =
      again (get_certificate_from_cache cfg.split_host_port cfg.selection s.cache hello now) s
