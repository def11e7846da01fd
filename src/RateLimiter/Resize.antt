-- ===== src/RateLimiter/Resize.antt =====
-- ratelimiter.go: SetMaxEvents, on the queue of time stamps.
use certmagic.Prelude.{
  ℕ, ◌+◌, ◌-◌, ◌≤◌, ◌<◌, ◌≡◌, refl, ap, sym, ◌∙◌, inl, inr, List, ◌++◌, leb, Bool-cases, leb→le,
  length, get_or, take, drop, replicate, length-take, length-drop, take-append-drop, arith, ok, pos,
}
use native.Mathlib.Nat.{sub_self, sub-eq-zero_of_le}
use native.Mathlib.Decide.{ℕ_discrete}
use mathlib.Core.Logic.{◌≢◌}
use mathlib.Core.List.{append-nil}
use certmagic.RateLimiter.{
  RingBufferRateLimiter, advance_times, oldest, next_slot, copy_ring, set_max_events,
}
use certmagic.RateLimiter.View.{IsValid, view, oldest-view, length-view}
use certmagic.RateLimiter.Copying.{
  take-append, advance_times_lem, copied-all, drop-replicate, take_of_length,
}

-- The queue after a change to `m` slots: the newest `m` time stamps, and behind them empty slots.
abbrev pub resized : ℕ → List ℕ → List ℕ
resized m q = drop (length q - m) q ++ replicate (m - length q) 0

resized-less :
    (m n : ℕ) (r : RingBufferRateLimiter)
    → IsValid r
    → m + n ≡ length r.ring
    → let r' = advance_times n r in copy_ring m 0 r'.cursor r' (replicate m 0) ≡ drop n (view r)
resized-less m n r v h =
    let q = view r in
    let r' = advance_times n r in
    let long : length q ≡ m + n = omega (arith, length-view r v) in
    let (v', same, seen) =
      advance_times_lem n r v (omega arith) (take n q) (drop n q) (sym (take-append-drop n q))
        (omega (arith, length-take n q)) in
    let rest : length (drop n q) ≡ m = omega (arith, length-drop n q) in
    copied-all m m r' v' (inl (refl, rw same (omega arith)))
    ∙ rw (drop-replicate m m, sub_self, append-nil, seen)
        (take-append m (drop n q) (take n q) (omega arith) ∙ take_of_length m (drop n q) rest)

resized-more :
    (m : ℕ) (r : RingBufferRateLimiter)
    → IsValid r
    → length r.ring ≤ m
    → copy_ring m 0 r.cursor r (replicate m 0) ≡ view r ++ replicate (m - length r.ring) 0
resized-more m r v h =
    copied-all m (length r.ring) r v (inr (refl, h))
    ∙ rw (
      drop-replicate (length r.ring) m,
      take_of_length (length r.ring) (view r) (length-view r v),
    )

changed : (m : ℕ) (r : RingBufferRateLimiter) → RingBufferRateLimiter
changed m r =
    let r' = advance_times (length r.ring - m) r in
    record r { ring = copy_ring m 0 r'.cursor r' (replicate m 0); cursor = 0 }

set_max_events-changed :
    (m : ℕ) (r : RingBufferRateLimiter)
    → IsValid r
    → (m ≡ 0 → r.window ≡ 0)
    → m ≢ length r.ring
    → set_max_events (pos m) r ≡ ok (changed m r)
unfolding set_max_events changed
set_max_events-changed m r v config h = ground (arith, v.inside)

set_max_events-same :
    (m : ℕ) (r : RingBufferRateLimiter)
    → IsValid r
    → m ≡ length r.ring
    → set_max_events (pos m) r ≡ ok r
unfolding set_max_events
set_max_events-same m r v h = ground (arith, v.inside)

resized_same : (q : List ℕ) → q ≡ resized (length q) q
resized_same q = rw sub_self (sym (append-nil q))

changed_more :
    (m : ℕ) (r : RingBufferRateLimiter)
    → IsValid r
    → length r.ring ≤ m
    → (changed m r).ring ≡ view r ++ replicate (m - length r.ring) 0
unfolding changed advance_times
changed_more m r v h = let e : length r.ring - m ≡ 0 = omega arith in rw e (resized-more m r v h)

changed-view :
    (m : ℕ) (r : RingBufferRateLimiter) → IsValid r → view (changed m r) ≡ resized m (view r)
unfolding changed
changed-view m r v = elim (Bool-cases (leb m (length r.ring))) [
  | inl less ↦
      let le = leb→le m (length r.ring) less in
      append-nil _
      ∙ resized-less m (length r.ring - m) r v (omega arith)
      ∙ rw (length-view r v, sub-eq-zero_of_le le) (sym (append-nil _))
  | inr more ↦
      let e : length r.ring - m ≡ 0 = ground (arith, more) in
      append-nil _ ∙ changed_more m r v (ground (arith, more)) ∙ rw (length-view r v, e) refl
]

-- On a limiter whose cursor lies inside its ring, and unless the new maximum is zero while the
-- window is not, SetMaxEvents does not panic and does not change the window. The queue of time
-- stamps keeps its newest `m` elements, in order, and what the new ring has beyond them are empty
-- slots behind them. The new maximum is a number that is not negative.
pub set_max_events-view :
    (m : ℕ) (r : RingBufferRateLimiter)
    → IsValid r
    → (m ≡ 0 → r.window ≡ 0)
    → (r' : RingBufferRateLimiter) × (set_max_events (pos m) r ≡ ok r')
      × (view r' ≡ resized m (view r))
      × (r'.window ≡ r.window)
set_max_events-view m r v config = elim (ℕ_discrete m (length r.ring)) [
  | yes same ↦ (
    r,
    set_max_events-same m r v same,
    rw (same, ← length-view r v) (resized_same (view r)),
    refl,
  )
  | no differs ↦ (
    changed m r,
    set_max_events-changed m r v config differs,
    changed-view m r v,
    unfold changed in refl,
  )
]

oldest-changed :
    (m : ℕ) (r : RingBufferRateLimiter)
    → IsValid r
    → length r.ring < m
    → oldest (changed m r) ≡ oldest r
unfolding changed oldest
oldest-changed m r v h =
    ap (λ ring. get_or ring 0 0) (changed_more m r v (omega arith))
    ∙ ap (λ q. get_or (q ++ replicate (m - length r.ring) 0) 0 0) (oldest-view r v)

-- Making a ring that is not empty longer leaves the next slot where it was: the new slots lie
-- behind the time stamps already taken, so the larger limit gives no ticket any earlier.
pub next_slot-set_max_events :
    (m : ℕ) (r r' : RingBufferRateLimiter)
    → IsValid r
    → length r.ring < m
    → set_max_events (pos m) r ≡ ok r'
    → next_slot r' ≡ next_slot r
unfolding next_slot changed
next_slot-set_max_events m r r' v h e =
    let made = set_max_events-changed m r v (omega (arith, v.inside)) (omega arith) in
    let same : r' ≡ changed m r = cc (made, e) in
    ap next_slot same ∙ ap (λ t. t + r.window) (oldest-changed m r v (omega arith))
