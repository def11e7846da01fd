-- ===== src/Certificate/Renewal.antt =====
-- certificates.go: when certNeedsRenewal says that a certificate is to be renewed.
use certmagic.Prelude.{
  Bool-cases, ◌==◌, ℕ, ◌+◌, ◌*◌, ◌/◌, ◌≤◌, ◌<◌, ◌≡◌, ◌≢◌, ◌↔◌, ◌⊎◌, inl, inr, refl, Result, Bool,
  true, false, some, arith, ok, err,
}
use certmagic.Certificate.{
  Leaf, RenewalInfo, Ratios, Panic, empty_choice, RenewalConfig, second, expires_at, selected_time,
  near_expiry, due_by_ari, cert_needs_renewal,
}

module _ (f : Ratios) (cfg : RenewalConfig f) (leaf : Leaf) (ari : RenewalInfo) where
  near_expiry_of_expired :
      (now : ℕ) → expires_at (some leaf) < now → near_expiry f cfg now leaf ≡ true
  unfolding near_expiry
  near_expiry_of_expired now h = ground arith

  near_expiry_mono :
      (now later : ℕ)
      → now ≤ later
      → near_expiry f cfg now leaf ≡ true
      → near_expiry f cfg later leaf ≡ true
  unfolding near_expiry
  near_expiry_mono now later h e = ground arith

  due_by_ari_mono :
      (now later selected : ℕ)
      → now ≤ later
      → due_by_ari f cfg now leaf ari selected ≡ true
      → due_by_ari f cfg later leaf ari selected ≡ true
  unfolding due_by_ari
  due_by_ari_mono now later selected h e = ground arith

  due_by_ari-false :
      (now : ℕ)
      → ari.selected_time ≢ 0
      → due_by_ari f cfg now leaf ari ari.selected_time ≡ false
      → now + cfg.check_interval ≤ ari.selected_time
  unfolding due_by_ari
  due_by_ari-false now h e = ground arith

  selected-cases :
      (draw : ℕ)
      → (selected_time f ari draw ≡ err empty_choice)
        ⊎ ((selected : ℕ) × (selected_time f ari draw ≡ ok selected))
  selected-cases draw = go (selected_time f ari draw)
    where
      go : (r : Result Panic ℕ) → (r ≡ err empty_choice) ⊎ ((n : ℕ) × (r ≡ ok n))
      go (ok n) = inr (n, refl)
      go (err empty_choice) = inl refl

  near_expiry-false :
      (now : ℕ)
      → near_expiry f cfg now leaf ≡ false
      → now + cfg.check_interval * 5 ≤ expires_at (some leaf)
  unfolding near_expiry
  near_expiry-false now e = ground arith

  -- The check panics exactly when renewal information is in use, no renewal time was selected, and
  -- a window is set that holds no whole second to choose after its first.
  pub cert_needs_renewal-panic_iff :
      (now draw : ℕ)
      → (cert_needs_renewal f cfg now draw (some leaf) ari ≡ err empty_choice) ↔ (
          (cfg.disable_ari ≡ false)
          × (ari.selected_time ≡ 0)
          × (ari.window_start ≢ 0)
          × (ari.window_end ≢ 0)
          × (ari.window_end / second ≤ ari.window_start / second + 1))
  unfolding cert_needs_renewal selected_time
  cert_needs_renewal-panic_iff now draw = ground arith

  -- An expired certificate is always to be renewed, whatever its renewal information says, unless
  -- the check panics.
  pub cert_needs_renewal_of_expired :
      (now draw : ℕ) {b : Bool}
      → expires_at (some leaf) < now
      → cert_needs_renewal f cfg now draw (some leaf) ari ≡ ok b
      → b ≡ true
  unfolding cert_needs_renewal
  cert_needs_renewal_of_expired now draw h e = ground (arith, near_expiry_of_expired now h)

  -- A certificate that is not to be renewed yet lasts for at least five more check intervals, and
  -- renewal information is not in use, no time was selected, or that time is at least one check
  -- interval away.
  pub cert_needs_renewal-margin :
      (now draw : ℕ)
      → cert_needs_renewal f cfg now draw (some leaf) ari ≡ ok false
      → (now + cfg.check_interval * 5 ≤ expires_at (some leaf))
        × ((cfg.disable_ari ≡ true)
            ⊎ ((ari.selected_time ≡ 0) ⊎ (now + cfg.check_interval ≤ ari.selected_time)))
  unfolding cert_needs_renewal selected_time
  cert_needs_renewal-margin now draw e = (
    ground (arith, near_expiry-false now),
    elim (Bool-cases cfg.disable_ari) [
      | inl disabled ↦ inl disabled
      | inr enabled ↦ elim (Bool-cases (ari.selected_time == 0)) [
        | inl unset ↦ inr (inl (ground (arith, unset)))
        | inr chosen ↦ inr (inr (ground (arith, due_by_ari-false now)))
      ]
    ],
  )

  -- Once it is to be renewed it stays so: the answer never goes back as time passes, with the same
  -- drawn number.
  pub cert_needs_renewal_mono :
      (now later draw : ℕ)
      → now ≤ later
      → cert_needs_renewal f cfg now draw (some leaf) ari ≡ ok true
      → cert_needs_renewal f cfg later draw (some leaf) ari ≡ ok true
  unfolding cert_needs_renewal
  cert_needs_renewal_mono now later draw h e = elim (selected-cases draw) [
    | inl none_left ↦ ground (arith, none_left, near_expiry_mono now later h)
    | inr (selected, chosen) ↦
        ground (arith, chosen, near_expiry_mono now later h, due_by_ari_mono now later selected h)
  ]

  -- With renewal information in use, a window of more than a second but no selected time, the
  -- answer is always to renew at once, however far away the window is: the cutoff is computed from
  -- the selected time that is not set, and not from the one that was just chosen.
  pub cert_needs_renewal_unselected :
      (now draw : ℕ)
      → 0 < now
      → cfg.disable_ari ≡ false
      → ari.selected_time ≡ 0
      → ari.window_start ≢ 0
      → ari.window_start / second + 1 < ari.window_end / second
      → cert_needs_renewal f cfg now draw (some leaf) ari ≡ ok true
  unfolding cert_needs_renewal selected_time due_by_ari
  cert_needs_renewal_unselected now draw h a s w d = ground arith
