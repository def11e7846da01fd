-- ===== src/Async/Retry/Attempts.antt =====
-- async.go: doWithRetry, when the function that it calls changes a state.
use certmagic.Prelude.{
  ℕ, ◌≤◌, ◌≡◌, refl, Bool, Option, none, some, List, [], ◌∷◌, ltb, Among, if◌then◌else◌, arith, ◌⊎◌,
  inl, inr, Bool-cases, ap, ◌∙◌, sym, subst,
}
use certmagic.Async.Retry.{
  max_retry_duration, Outcome, success, canceled, no_retry, failed, RetryError, context_canceled,
  wrapped_no_retry, Round, Progress, returned, pending, next_index, error_of, wait_of,
  after_attempt, stop_with, retry_loop, do_with_retry,
}

-- The clock and the context in a round, what others do to the state before its attempt, and a
-- number that tells the moment of the attempt.
pub record Try {ℓ} (S : Type ℓ) : Type ℓ where
  pub elapsed : ℕ
  pub done : Bool
  pub meanwhile : S → S
  pub moment : ℕ
  pub elapsed_after : ℕ

module _ {S : Type 0} where
  -- Whether the time is over in a try.
  abbrev pub IsLate : Try S → Type 0
  IsLate t = (max_retry_duration ≤ t.elapsed_after) ⊎ (max_retry_duration ≤ t.elapsed)

module _ {S : Type 0} (f : ℕ → S → S × Outcome) where
  unfoldable after : S × Outcome → ℕ → S × Progress → S × Progress
  after (s, success) time later = (s, returned none)
  after (s, canceled) time later = (s, returned (some context_canceled))
  after (s, no_retry e) time later = (s, returned (some (wrapped_no_retry e)))
  after (s, failed e) time later = if ltb time max_retry_duration then later else (s, returned none)

  unfoldable pub retry_from : ℕ → Option RetryError → List (Try S) → S → S × Progress
  unfolding after
  retry_from i e [] s = (s, pending)
  retry_from i e (t ∷ tries) s =
      let before = t.meanwhile s in
      let attempt = f t.moment before in
      let later = retry_from (next_index i) (error_of e attempt.1) tries attempt.0 in
      let attempted = after attempt t.elapsed_after later in
      let waited = if t.done then (before, returned (some context_canceled)) else attempted in
      if ltb t.elapsed max_retry_duration then waited else (s, returned e)

  unfoldable pub retry : List (Try S) → S → S × Progress
  unfolding retry_from
  retry tries s = retry_from 0 none tries s

  -- The rounds of the run, without their states.
  unfoldable pub rounds_of : List (Try S) → S → List Round
  rounds_of [] s = []
  rounds_of (t ∷ tries) s =
      let attempt = f t.moment (t.meanwhile s) in
      record {
        elapsed = t.elapsed;
        done = t.done;
        outcome = attempt.1;
        elapsed_after = t.elapsed_after;
      }
      ∷ rounds_of tries attempt.0

  ending :
      (w : ℕ) (t : Try S) (a : S × Outcome) (o : Outcome) (later : S × Progress)
      (rest : List ℕ × Progress)
      → a.1 ≡ o
      → later.1 ≡ rest.1
      → (after a t.elapsed_after later).1
        ≡ (after_attempt w
            (record {
              elapsed = t.elapsed;
              done = t.done;
              outcome = a.1;
              elapsed_after = t.elapsed_after;
            })
            rest).1
  unfolding after after_attempt stop_with
  ending w t (s, x) success later rest e same = rw e refl
  ending w t (s, x) canceled later rest e same = rw e refl
  ending w t (s, x) (no_retry n) later rest e same = rw e refl
  ending w t (s, x) (failed n) later rest e same = rw e (ground (arith, same))

  retry_from-loop :
      (i : ℕ) (e : Option RetryError) (tries : List (Try S)) (s : S)
      → (retry_from i e tries s).1 ≡ (retry_loop i e (rounds_of tries s)).1
  unfolding retry_from rounds_of retry_loop
  retry_from-loop i e [] s = refl
  retry_from-loop i e (t ∷ tries) s =
      let a = f t.moment (t.meanwhile s) in
      let same =
        ending (wait_of i) t a a.1 _ _ refl
          (retry_from-loop (next_index i) (error_of e a.1) tries a.0) in
      elim (Bool-cases (ltb t.elapsed max_retry_duration)) [
        | inr late ↦ rw late refl
        | inl early ↦
            rw early
              (elim (Bool-cases t.done) [ inl ended ↦ rw ended refl | inr alive ↦ rw alive same ])
      ]

  -- What holds after every attempt that succeeds.
  after_success :
      (P : S → Type 0) (a : S × Outcome) (t : Try S) (later : S × Progress)
      → (a.1 ≡ success → P a.0)
      → (after a t.elapsed_after later).1 ≡ returned none
      → P (after a t.elapsed_after later).0 ⊎ (IsLate t ⊎ (after a t.elapsed_after later ≡ later))
  unfolding after
  after_success P (s, success) t later good h = inl (good refl)
  after_success P (s, canceled) t later good h = cc
  after_success P (s, no_retry e) t later good h = cc
  after_success P (s, failed e) t later good h =
      elim (Bool-cases (ltb t.elapsed_after max_retry_duration)) [
        | inl early ↦ inr (inr (rw early refl))
        | inr late ↦ inr (inl (inl (ground (arith, late))))
      ]

  retry_from-success :
      (P : S → Type 0) (i : ℕ) (e : Option RetryError) (tries : List (Try S)) (s : S)
      → ((now : ℕ) (s₀ : S) → (f now s₀).1 ≡ success → P (f now s₀).0)
      → (retry_from i e tries s).1 ≡ returned none
      → P (retry_from i e tries s).0 ⊎ ((t : Try S) × Among t tries × IsLate t)
  unfolding retry_from
  retry_from-success P i e [] s good h = cc
  retry_from-success P i e (t ∷ tries) s good h =
      let a = f t.moment (t.meanwhile s) in
      let later = retry_from (next_index i) (error_of e a.1) tries a.0 in
      let more = retry_from-success P (next_index i) (error_of e a.1) tries a.0 good in
      elim (Bool-cases (ltb t.elapsed max_retry_duration)) [
        | inr late ↦ inr (t, inl refl, inr (ground (arith, late)))
        | inl early ↦ elim (Bool-cases t.done) [
          | inl ended ↦ let q = rw (early, ended) at h in cc
          | inr alive ↦
              let run : retry_from i e (t ∷ tries) s ≡ after a t.elapsed_after later =
                (simp (early, alive) refl) in
              elim (after_success P a t later (good t.moment (t.meanwhile s))
                (sym (ap (λ x. x.1) run) ∙ h)) [
                  | inl this ↦ inl (subst (λ x. P x.0) (sym run) this)
                  | inr (inl over) ↦ inr (t, inl refl, over)
                  | inr (inr same) ↦ elim (more (sym (ap (λ x. x.1) (run ∙ same)) ∙ h)) [
                    | inl this ↦ inl (subst (λ x. P x.0) (sym (run ∙ same)) this)
                    | inr (t', among, over) ↦ inr (t', inr among, over)
                  ]
                ]
        ]
      ]

  -- The run of a function that changes a state ends as doWithRetry does in the rounds that are seen.
  pub retry-do_with_retry :
      (tries : List (Try S)) (s : S) → (retry tries s).1 ≡ (do_with_retry (rounds_of tries s)).1
  unfolding retry do_with_retry
  retry-do_with_retry tries s = retry_from-loop 0 none tries s

  -- If a run returns no error, what holds after every attempt that succeeds holds at its end, or
  -- the time was over in one of its tries.
  pub retry-success :
      (P : S → Type 0) (tries : List (Try S)) (s : S)
      → ((now : ℕ) (s₀ : S) → (f now s₀).1 ≡ success → P (f now s₀).0)
      → (retry tries s).1 ≡ returned none
      → P (retry tries s).0 ⊎ ((t : Try S) × Among t tries × IsLate t)
  unfolding retry
  retry-success P tries s good h = retry_from-success P 0 none tries s good h
