-- ===== src/Async/Retry/Waits.antt =====
-- async.go: how long doWithRetry waits before each attempt.
use certmagic.Prelude.{
  ℕ, zero, suc, ◌+◌, ◌*◌, ◌≤◌, ◌<◌, ◌≡◌, refl, ◌∙◌, Bool, true, Option, none, List, [], ◌∷◌, ltb,
  leb, ◌&&◌, get_or, length, arith, ◌⊎◌, inl, inr, Bool-cases,
}
use Prim.Native.Nat.{min}
use native.Mathlib.Nat.{add-zero, add-suc, suc-add, zero-add}
use certmagic.Async.Retry.{
  hour, retry_intervals, max_retry_duration, Outcome, success, canceled, no_retry, failed,
  RetryError, Round, Run, next_index, wait_of, after_attempt, error_of, retry_loop, do_with_retry,
}

-- The index with which a round begins, after as many failed attempts.
index_after : ℕ → ℕ
unfolding next_index
index_after zero = 0
index_after (suc n) = next_index (index_after n)

index_after_lem : (n : ℕ) → index_after n ≡ min n 25
unfolding index_after
index_after_lem zero = omega arith
index_after_lem (suc n) = ground (arith, index_after_lem n)

after_attempt-waits :
    (wait : ℕ) (r : Round) (rest : Run)
    → (length (after_attempt wait r rest).0 ≤ 1) ⊎ ((after_attempt wait r rest).0 ≡ wait ∷ rest.0)
unfolding after_attempt
after_attempt-waits wait r rest = go r.outcome
  where
    go :
        (o : Outcome)
        → let r' = record r { outcome = o } in
          (length (after_attempt wait r' rest).0 ≤ 1)
          ⊎ ((after_attempt wait r' rest).0 ≡ wait ∷ rest.0)
    go success = inl (omega arith)
    go canceled = inl (omega arith)
    go (no_retry e) = inl (omega arith)
    go (failed e) = elim (Bool-cases (ltb r.elapsed_after max_retry_duration)) [
      | inl early ↦ inr (rw early)
      | inr late ↦ inl (rw late (omega arith))
    ]

waits_step :
    (i : ℕ) (e : Option RetryError) (r : Round) (rounds : List Round)
    → (length (retry_loop i e (r ∷ rounds)).0 ≤ 1)
      ⊎ ((retry_loop i e (r ∷ rounds)).0
          ≡ wait_of i ∷ (retry_loop (next_index i) (error_of e r.outcome) rounds).0)
unfolding retry_loop
waits_step i e r rounds =
    let rest = retry_loop (next_index i) (error_of e r.outcome) rounds in
    elim (Bool-cases (ltb r.elapsed max_retry_duration)) [
      | inl early ↦ elim (Bool-cases r.done) [
        | inl ended ↦ rw (early, ended) (inl (omega arith))
        | inr alive ↦ rw (early, alive) (after_attempt-waits (wait_of i) r rest)
      ]
      | inr late ↦ rw late (inl (omega arith))
    ]

waits_from :
    (n k : ℕ) (e : Option RetryError) (rounds : List Round)
    → k < length (retry_loop (index_after n) e rounds).0
    → get_or (retry_loop (index_after n) e rounds).0 k 0 ≡ wait_of (index_after (n + k))
unfolding retry_loop index_after
waits_from n k e [] h = elim h [ ]
waits_from n zero e (r ∷ rounds) h = rw add-zero (ground arith)
waits_from n (suc k) e (r ∷ rounds) h = elim (waits_step (index_after n) e r rounds) [
  | inl short ↦ absurd (omega arith)
  | inr more ↦
      let h' = rw more at h in
      rw more
        (waits_from (suc n) k (error_of e r.outcome) rounds (omega arith) ∙ rw (suc-add, add-suc))
]

all_below : ℕ → (ℕ → Bool) → Bool
all_below zero p = true
all_below (suc n) p = p n && all_below n p

all_below_lem : (n : ℕ) (p : ℕ → Bool) (x : ℕ) → all_below n p ≡ true → x < n → p x ≡ true
unfolding all_below
all_below_lem zero p x h lt = absurd (omega arith)
all_below_lem (suc n) p x h lt = ground (arith, all_below_lem n p x)

wait_table :
    all_below 25 (λ i.
      ltb 0 (wait_of (suc i))
      && (leb (wait_of i) (wait_of (suc i)) && leb (wait_of (suc i)) (6 * hour)))
    ≡ true
unfolding all_below wait_of
wait_table = refl

wait_step :
    (i : ℕ)
    → i < 25
    → (0 < wait_of (suc i)) × (wait_of i ≤ wait_of (suc i)) × (wait_of (suc i) ≤ 6 * hour)
wait_step i h =
    let row =
      all_below_lem 25
        (λ j.
          ltb 0 (wait_of (suc j))
          && (leb (wait_of j) (wait_of (suc j)) && leb (wait_of (suc j)) (6 * hour)))
        i wait_table h in
    (ground (arith, row), ground (arith, row), ground (arith, row))

wait_grows :
    (k : ℕ)
    → (wait_of (index_after k) ≤ wait_of (index_after (suc k)))
      × (0 < wait_of (index_after (suc k)))
      × (wait_of (index_after (suc k)) ≤ 6 * hour)
wait_grows k =
    rw (index_after_lem k, index_after_lem (suc k))
      (elim (Bool-cases (ltb k 25)) [
        | inl low ↦
            let less : k < 25 = ground (arith, low) in
            let a : min k 25 ≡ k = omega arith in
            let b : min (suc k) 25 ≡ suc k = omega arith in
            let (more, up, cap) = wait_step k less in rw (a, b) (up, more, cap)
        | inr high ↦
            let more : 25 ≤ k = ground (arith, high) in
            let a : min k 25 ≡ 25 = omega arith in
            let b : min (suc k) 25 ≡ 25 = omega arith in
            let (pos, up, cap) = wait_step 24 (omega arith) in rw (a, b) (omega arith, pos, cap)
      ])

-- The wait of a position of a run, from the table of intervals.
wait_at : (k : ℕ) → wait_of (index_after (suc k)) ≡ get_or retry_intervals (min k 24) 0
unfolding wait_of
wait_at k =
    let next : min (suc k) 25 ≡ suc (min k 24) = omega arith in
    rw (index_after_lem (suc k), next) refl

-- The first attempt does not wait. After that, the waits of a run are the entries of the table of
-- intervals, in order, and again and again the last one; each is longer than zero, not shorter than
-- the wait before it, and at most six hours.
pub do_with_retry-waits :
    (rounds : List Round) (k : ℕ)
    → suc k < length (do_with_retry rounds).0
    → let waits = (do_with_retry rounds).0 in
      (get_or waits 0 0 ≡ 0)
      × (get_or waits (suc k) 0 ≡ get_or retry_intervals (min k 24) 0)
      × (get_or waits k 0 ≤ get_or waits (suc k) 0)
      × (0 < get_or waits (suc k) 0)
      × (get_or waits (suc k) 0 ≤ 6 * hour)
unfolding do_with_retry index_after
do_with_retry-waits rounds k h =
    let first = waits_from 0 0 none rounds (omega arith) in
    let here = waits_from 0 k none rounds (omega arith) in
    let after = waits_from 0 (suc k) none rounds h in
    let (up, more, cap) = wait_grows k in
    (
      first ∙ unfold wait_of in refl,
      rw (after, zero-add) (wait_at k),
      rw (here, after, zero-add, zero-add) up,
      rw (after, zero-add) more,
      rw (after, zero-add) cap,
    )
