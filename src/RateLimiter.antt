-- ===== src/RateLimiter.antt =====
-- ratelimiter.go: the ring buffer of time stamps, its configuration, and the loop that hands out
-- tickets. A time is a number of nanoseconds since the zero time, so an unused slot holds 0;
-- a window is a duration that is not negative. A panic is an error of the call that raises it.
pub mod View
pub mod Copying
pub mod Resize
pub mod Window
pub mod Loop
use certmagic.Prelude.{
  ℕ, zero, suc, ◌+◌, ◌-◌, Bool, true, false, not, ◌&&◌, Option, none, some, List, [], ◌∷◌, leb,
  ◌==◌, if◌then◌else◌, length, get_or, set, replicate, Result, ok, err, ℤ, pos, negsuc,
}

pub record RingBufferRateLimiter : Type 0 where
  pub window : ℕ
  pub ring : List ℕ
  pub cursor : ℕ

pub data Panic : Type 0 where
  negative_max_events invalid_configuration : Panic

-- maxEvents < 0 is caught first; `make` of a negative length panics in SetMaxEvents.
unfoldable pub new_rate_limiter : ℤ → ℕ → Result Panic RingBufferRateLimiter
new_rate_limiter (negsuc n) window = err negative_max_events
new_rate_limiter (pos max_events) window =
    if max_events == 0 && not (window == 0)
    then err invalid_configuration
    else ok (record { window = window; ring = replicate max_events 0; cursor = 0 })

unfoldable pub advance : RingBufferRateLimiter → RingBufferRateLimiter
advance r = let c = r.cursor + 1 in record r { cursor = if leb (length r.ring) c then 0 else c }

-- `for i := 0; i < n; i++ { r.advance() }`
unfoldable pub advance_times : ℕ → RingBufferRateLimiter → RingBufferRateLimiter
advance_times zero r = r
advance_times (suc n) r = advance_times n (advance r)

-- r.ring[r.cursor]; the cursor lies inside a ring that is not empty.
unfoldable pub oldest : RingBufferRateLimiter → ℕ
oldest r = get_or r.ring r.cursor 0

-- The copying loop of SetMaxEvents, with `left` slots of the new ring to go.
unfoldable pub copy_ring : (left i start : ℕ) → RingBufferRateLimiter → List ℕ → List ℕ
unfolding advance oldest
copy_ring zero i start r new_ring = new_ring
copy_ring (suc left) i start r new_ring =
    let new_ring' = set new_ring i (oldest r) in
    let rest = copy_ring left (suc i) start (advance r) new_ring' in
    if (advance r).cursor == start then new_ring' else rest

unfoldable pub set_max_events : ℤ → RingBufferRateLimiter → Result Panic RingBufferRateLimiter
unfolding advance_times copy_ring
set_max_events (negsuc n) r = err negative_max_events
set_max_events (pos max_events) r =
    if not (r.window == 0) && max_events == 0
    then err invalid_configuration
    else if max_events == length r.ring
    then ok r
    else let r' = advance_times (length r.ring - max_events) r in
      let new_ring = replicate max_events 0 in
      ok (record r {
        ring =
            if length r.ring == 0 then new_ring else copy_ring max_events 0 r'.cursor r' new_ring;
        cursor = 0;
      })

unfoldable pub set_window : ℕ → RingBufferRateLimiter → Result Panic RingBufferRateLimiter
set_window window r =
    if not (window == 0) && length r.ring == 0
    then err invalid_configuration
    else ok (record r { window = window })

pub max_events : RingBufferRateLimiter → ℕ
max_events r = length r.ring

-- The time before which the loop gives no ticket.
unfoldable pub next_slot : RingBufferRateLimiter → ℕ
unfolding oldest
next_slot r = oldest r + r.window

-- What `permit` does when a ticket is taken at the time `now`.
unfoldable pub permit : ℕ → RingBufferRateLimiter → RingBufferRateLimiter
unfolding advance
permit now r =
    if leb 1 (length r.ring) then advance (record r { ring = set r.ring r.cursor now }) else r
