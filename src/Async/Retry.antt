-- ===== src/Async/Retry.antt =====
-- async.go: doWithRetry, over what the clock, the context and the function do in each round.
pub mod Waits
pub mod Endings
pub mod Attempts
use certmagic.Prelude.{
  ℕ, zero, suc, ◌+◌, ◌-◌, ◌*◌, ◌≤◌, ◌<◌, ◌≡◌, ◌≢◌, refl, ◌∙◌, Bool, true, false, Option, none, some,
  List, [], ◌∷◌, ltb, leb, ◌&&◌, Among, if◌then◌else◌, get_or, length, arith, ◌⊎◌, inl, inr,
  Bool-cases, ap,
}
use Prim.Native.Nat.{min}
use native.Mathlib.Nat.{add-zero, add-suc, suc-add, zero-add}

abbrev pub minute : ℕ
minute = 60000000000

abbrev pub hour : ℕ
hour = 3600000000000

abbrev pub retry_intervals : List ℕ
retry_intervals =
    minute
    ∷ (2 * minute)
    ∷ (2 * minute)
    ∷ (5 * minute)
    ∷ (10 * minute)
    ∷ (10 * minute)
    ∷ (10 * minute)
    ∷ (20 * minute)
    ∷ (20 * minute)
    ∷ (20 * minute)
    ∷ (20 * minute)
    ∷ (30 * minute)
    ∷ (30 * minute)
    ∷ (30 * minute)
    ∷ (30 * minute)
    ∷ (30 * minute)
    ∷ (30 * minute)
    ∷ hour
    ∷ hour
    ∷ hour
    ∷ (2 * hour)
    ∷ (2 * hour)
    ∷ (3 * hour)
    ∷ (3 * hour)
    ∷ (6 * hour)
    ∷ []

abbrev pub max_retry_duration : ℕ
max_retry_duration = 24 * hour * 30

-- How an attempt ends: an error may wrap context.Canceled or ErrNoRetry.
pub data Outcome : Type 0 where
  success canceled : Outcome
  no_retry : ℕ → Outcome
  failed : ℕ → Outcome

-- What the function returns; an error is told by a number.
pub data RetryError : Type 0 where
  context_canceled : RetryError
  wrapped_no_retry : ℕ → RetryError
  last_error : ℕ → RetryError

-- The time since the start at the loop's test, whether the context ends during the wait, how the
-- attempt ends, and the time since the start after it.
pub record Round : Type 0 where
  pub elapsed : ℕ
  pub done : Bool
  pub outcome : Outcome
  pub elapsed_after : ℕ

-- A run has returned, with an error or none, or it waits for its next round.
pub data Progress : Type 0 where
  returned : Option RetryError → Progress
  pending : Progress

-- intervalIndex + 1
unfoldable pub next_index : ℕ → ℕ
next_index zero = 1
next_index (suc i) = if ltb i (length retry_intervals - 1) then suc (suc i) else suc i

-- The wait of a round, before the context or the timer ends it.
unfoldable pub wait_of : ℕ → ℕ
wait_of zero = 0
wait_of (suc i) = get_or retry_intervals i 0

-- A run: the waits that its rounds began with, and how far it came.
abbrev pub Run : Type 0
Run = List ℕ × Progress

unfoldable pub stop_with : ℕ → Option RetryError → Run
stop_with wait e = (wait ∷ [], returned e)

unfoldable pub after_attempt : ℕ → Round → Run → Run
unfolding stop_with
after_attempt wait r (waits, progress) = elim (r.outcome) [
  | success ↦ stop_with wait none
  | canceled ↦ stop_with wait (some context_canceled)
  | no_retry e ↦ stop_with wait (some (wrapped_no_retry e))
  | failed e ↦
      if ltb r.elapsed_after max_retry_duration
      then (wait ∷ waits, progress)
      else stop_with wait none
]

unfoldable pub error_of : Option RetryError → Outcome → Option RetryError
error_of old (failed e) = some (last_error e)
error_of old _ = old

unfoldable pub retry_loop : ℕ → Option RetryError → List Round → Run
unfolding after_attempt error_of
retry_loop i e [] = ([], pending)
retry_loop i e (r ∷ rounds) =
    let rest = retry_loop (next_index i) (error_of e r.outcome) rounds in
    let attempted = after_attempt (wait_of i) r rest in
    let waited = if r.done then stop_with (wait_of i) (some context_canceled) else attempted in
    if ltb r.elapsed max_retry_duration then waited else ([], returned e)

unfoldable pub do_with_retry : List Round → Run
unfolding retry_loop
do_with_retry rounds = retry_loop 0 none rounds
