-- ===== src/RateLimiter/Window.antt =====
-- ratelimiter.go: a run of the loop with a fixed configuration never lets more than the maximum
-- number of events through in a window.
use certmagic.Prelude.{
  ℕ, zero, suc, ◌+◌, ◌≤◌, ◌<◌, ◌≡◌, List, [], ◌∷◌, ◌++◌, length, get_or, length-append, arith,
}
use mathlib.Core.List.{append_assoc}
use native.Mathlib.Nat.{add-zero, add-suc}
use certmagic.RateLimiter.{RingBufferRateLimiter, advance, next_slot, permit}
use certmagic.RateLimiter.View.{
  IsValid, view, push, oldest-view, view-permit, permit-IsValid, length-view,
}

-- The times at which tickets are taken, in a run of the loop from `r`: none before its slot.
pub data Grants : RingBufferRateLimiter → List ℕ → Type 0 where
  stop : {r : RingBufferRateLimiter} → Grants r []
  ticket :
      {r : RingBufferRateLimiter} {now : ℕ} {times : List ℕ}
      → next_slot r ≤ now
      → Grants (permit now r) times
      → Grants r (now ∷ times)

window-permit : (now : ℕ) (r : RingBufferRateLimiter) → (permit now r).window ≡ r.window
unfolding permit advance
window-permit now r = ground arith

-- The same over the queue of time stamps.
abbrev Spaced : ℕ → List ℕ → List ℕ → Type 0
Spaced w q [] = Unit {0}
Spaced w q (t ∷ ts) = (get_or q 0 0 + w ≤ t) × Spaced w (push t q) ts

Spaced-far :
    (w : ℕ) (q ts : List ℕ) (j : ℕ)
    → 0 < length q
    → Spaced w q ts
    → j < length ts
    → get_or (q ++ ts) j 0 + w ≤ get_or ts j 0
Spaced-far w [] ts j p s h = absurd (omega arith)
Spaced-far w (x ∷ q) [] j p s h = elim h [ ]
Spaced-far w (x ∷ q) (t ∷ ts) zero p s h = s.0
Spaced-far w (x ∷ q) (t ∷ ts) (suc j) p s h =
    rw (append_assoc q (t ∷ []) ts) at
      (Spaced-far w (q ++ t ∷ []) ts j (omega (arith, length-append q (t ∷ []))) s.1 (omega arith))

get_or-append : (q ts : List ℕ) (i : ℕ) → get_or (q ++ ts) (i + length q) 0 ≡ get_or ts i 0
get_or-append [] ts i = rw add-zero
get_or-append (x ∷ q) ts i = rw add-suc (get_or-append q ts i)

Grants-Spaced :
    {r : RingBufferRateLimiter} {times : List ℕ}
    → IsValid r
    → Grants r times
    → Spaced r.window (view r) times
Grants-Spaced v stop = tt
Grants-Spaced {r = r} v (ticket {now = now} h g) = (
  rw (oldest-view r v) (unfold next_slot in h),
  rw (view-permit now r v, window-permit now r) at (Grants-Spaced (permit-IsValid now r v) g),
)

-- In a run from a limiter whose cursor lies inside its ring, any two tickets that are as far apart
-- as the ring is long are at least a window apart, so no window that ends before holds more tickets
-- than the ring has slots. The times are those at which the tickets are taken, and the
-- configuration does not change during the run.
pub Grants-limited :
    {r : RingBufferRateLimiter} {times : List ℕ} (i : ℕ)
    → IsValid r
    → Grants r times
    → i + length r.ring < length times
    → get_or times i 0 + r.window ≤ get_or times (i + length r.ring) 0
Grants-limited {r} {times} i v g h =
    rw (get_or-append (view r) times i, length-view r v) at
      (Spaced-far r.window (view r) times (i + length (view r))
        (omega (arith, length-view r v, v.inside)) (Grants-Spaced v g)
        (omega (arith, length-view r v)))
