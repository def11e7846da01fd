-- ===== src/Async/Retry/Endings.antt =====
-- async.go: with what doWithRetry returns.
use certmagic.Prelude.{
  ℕ, ◌≤◌, ◌<◌, ◌≡◌, refl, false, Option, none, some, List, [], ◌∷◌, ltb, Among, arith, ◌⊎◌, inl,
  inr, Bool-cases,
}
use certmagic.Async.Retry.{
  max_retry_duration, Outcome, success, canceled, no_retry, failed, RetryError, last_error, Round,
  returned, Run, next_index, wait_of, after_attempt, error_of, retry_loop, do_with_retry,
}

-- What ends a run in which every attempt fails: the last one fails when the time is over, and
-- those before it fail in time. No error asks to stop, and the context does not end.
abbrev pub Exhausts : List Round → Type 0
Exhausts [] = ⊥
Exhausts (r ∷ []) =
    (r.done ≡ false)
    × (r.elapsed < max_retry_duration)
    × ((e : ℕ) × (r.outcome ≡ failed e))
    × (max_retry_duration ≤ r.elapsed_after)
Exhausts (r ∷ r' ∷ rounds) =
    (r.done ≡ false)
    × (r.elapsed < max_retry_duration)
    × ((e : ℕ) × (r.outcome ≡ failed e))
    × (r.elapsed_after < max_retry_duration)
    × Exhausts (r' ∷ rounds)

exhausted :
    (i : ℕ) (e : Option RetryError) (rounds : List Round)
    → Exhausts rounds
    → (retry_loop i e rounds).1 ≡ returned none
unfolding retry_loop
exhausted i e [] h = absurd h
exhausted i e (r ∷ []) (alive, early, (x, bad), late) = ground arith
exhausted i e (r ∷ r' ∷ rounds) (alive, early, (x, bad), intime, rest) =
    ground (arith, exhausted (next_index i) (some (last_error x)) (r' ∷ rounds) rest)

-- A run in which every attempt fails and may be retried, until the last fails after the time is
-- over, returns no error.
pub do_with_retry_exhausted :
    (rounds : List Round) → Exhausts rounds → (do_with_retry rounds).1 ≡ returned none
unfolding do_with_retry
do_with_retry_exhausted rounds h = exhausted 0 none rounds h

-- What makes a round end a run without an error.
abbrev pub Ends : Round → Type 0
Ends r =
    (r.outcome ≡ success)
    ⊎ (((e : ℕ) × (r.outcome ≡ failed e) × (max_retry_duration ≤ r.elapsed_after))
        ⊎ (max_retry_duration ≤ r.elapsed))

attempt_nil :
    (wait : ℕ) (r : Round) (o : Outcome) (rest : Run)
    → r.outcome ≡ o
    → (after_attempt wait r rest).1 ≡ returned none
    → Ends r ⊎ (rest.1 ≡ returned none)
unfolding after_attempt
attempt_nil wait r success rest e h = inl (inl e)
attempt_nil wait r canceled rest e h = let q = rw (e, after_attempt) at h in cc
attempt_nil wait r (no_retry x) rest e h = let q = rw (e, after_attempt) at h in cc
attempt_nil wait r (failed x) rest e h =
    elim (Bool-cases (ltb r.elapsed_after max_retry_duration)) [
      | inl early ↦ inr (rw (e, after_attempt, early) at h)
      | inr late ↦ inl (inr (inl (x, e, ground (arith, late))))
    ]

loop_nil :
    (i : ℕ) (e : Option RetryError) (rounds : List Round)
    → (retry_loop i e rounds).1 ≡ returned none
    → (r : Round) × Among r rounds × Ends r
unfolding retry_loop
loop_nil i e [] h = cc
loop_nil i e (r ∷ rounds) h =
    let rest = retry_loop (next_index i) (error_of e r.outcome) rounds in
    let later = loop_nil (next_index i) (error_of e r.outcome) rounds in
    elim (Bool-cases (ltb r.elapsed max_retry_duration)) [
      | inr late ↦ (r, inl refl, inr (inr (ground (arith, late))))
      | inl early ↦ elim (Bool-cases r.done) [
        | inl ended ↦ let q = rw (early, ended) at h in cc
        | inr alive ↦
            elim (attempt_nil (wait_of i) r r.outcome rest refl (rw (early, alive) at h)) [
              | inl this ↦ (r, inl refl, this)
              | inr more ↦ let (r', among, ends) = later more in (r', inr among, ends)
            ]
      ]
    ]

-- If a run returns no error, some attempt succeeded, or one failed when the time was over, or the
-- time was over before the first attempt.
pub do_with_retry-nil :
    (rounds : List Round)
    → (do_with_retry rounds).1 ≡ returned none
    → (r : Round) × Among r rounds
      × ((r.outcome ≡ success)
          ⊎ (((e : ℕ) × (r.outcome ≡ failed e) × (max_retry_duration ≤ r.elapsed_after))
              ⊎ (max_retry_duration ≤ r.elapsed)))
unfolding do_with_retry
do_with_retry-nil rounds h = loop_nil 0 none rounds h
