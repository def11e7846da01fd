-- ===== src/RateLimiter/Loop.antt =====
-- ratelimiter.go: the goroutine `loop` beside the goroutines that configure the limiter, take
-- tickets and stop it. A step is what happens between two points where another goroutine may run:
-- the test of the ring's length, the test of the window and the read of the oldest time stamp are
-- separate steps, since the source takes the lock only for the last.
use certmagic.Prelude.{
  ℕ, zero, suc, ◌-◌, ◌≤◌, ◌<◌, ◌≡◌, ◌≢◌, refl, List, [], length, set, replicate, length-set,
  length-replicate, arith, ok, ℤ, pos, negsuc,
}
use certmagic.RateLimiter.{
  RingBufferRateLimiter, new_rate_limiter, advance, advance_times, oldest, next_slot, copy_ring,
  set_max_events, set_window, permit,
}

-- Where the loop stands; `crashed` is a panic that the deferred function recovers from.
pub data Phase : Type 0 where
  top emptied reading permitting returned : Phase
  waiting : ℕ → Phase
  crashed_configuration crashed_index : Phase

pub record Machine : Type 0 where
  pub limiter : RingBufferRateLimiter
  pub phase : Phase

pub data Step : Machine → Machine → Type 0 where
  see_stopped : (s : Machine) → s.phase ≡ top → Step s (record s { phase = returned })
  see_ring :
      (s : Machine)
      → s.phase ≡ top
      → 0 < length s.limiter.ring
      → Step s (record s { phase = reading })
  see_empty :
      (s : Machine)
      → s.phase ≡ top
      → length s.limiter.ring ≡ 0
      → Step s (record s { phase = emptied })
  see_disabled :
      (s : Machine)
      → s.phase ≡ emptied
      → s.limiter.window ≡ 0
      → Step s (record s { phase = permitting })
  see_invalid :
      (s : Machine)
      → s.phase ≡ emptied
      → s.limiter.window ≢ 0
      → Step s (record s { phase = crashed_configuration })
  read :
      (s : Machine)
      → s.phase ≡ reading
      → s.limiter.cursor < length s.limiter.ring
      → Step s (record s { phase = waiting (next_slot s.limiter) })
  read_past_end :
      (s : Machine)
      → s.phase ≡ reading
      → length s.limiter.ring ≤ s.limiter.cursor
      → Step s (record s { phase = crashed_index })
  timer_fires :
      (s : Machine) (slot now : ℕ)
      → s.phase ≡ waiting slot
      → slot ≤ now
      → Step s (record s { phase = permitting })
  stop_waiting :
      (s : Machine) (slot : ℕ) → s.phase ≡ waiting slot → Step s (record s { phase = returned })
  ticket :
      (s : Machine) (now : ℕ)
      → s.phase ≡ permitting
      → Step s (record s { limiter = permit now s.limiter; phase = top })
  stop_permit : (s : Machine) → s.phase ≡ permitting → Step s (record s { phase = top })
  set_events :
      (s : Machine) (m : ℤ) (r : RingBufferRateLimiter)
      → set_max_events m s.limiter ≡ ok r
      → Step s (record s { limiter = r })
  set_size :
      (s : Machine) (w : ℕ) (r : RingBufferRateLimiter)
      → set_window w s.limiter ≡ ok r
      → Step s (record s { limiter = r })

pub data Reach (s : Machine) : Machine → Type 0 where
  here : Reach s s
  next : {t u : Machine} → Reach s t → Step t u → Reach s u

-- The machine that NewRateLimiter starts.
unfoldable pub start : RingBufferRateLimiter → Machine
start r = record { limiter = r; phase = top }

-- The limiter can be configured: a window that is not zero goes with a ring that is not empty, and
-- the cursor lies inside a ring that is not empty.
pub record IsConfigured (r : RingBufferRateLimiter) : Type 0 where
  pub allows : r.window ≢ 0 → 0 < length r.ring
  pub inside : 0 < length r.ring → r.cursor < length r.ring

new-IsConfigured :
    (m : ℤ) (w : ℕ) (r : RingBufferRateLimiter) → new_rate_limiter m w ≡ ok r → IsConfigured r
unfolding new_rate_limiter
new-IsConfigured (pos m) w r e = ground (arith, length-replicate {A = ℕ} m 0)
new-IsConfigured (negsuc m) w r e = cc

length-copy_ring :
    (left i start : ℕ) (r : RingBufferRateLimiter) (new_ring : List ℕ)
    → length (copy_ring left i start r new_ring) ≡ length new_ring
unfolding copy_ring
length-copy_ring zero i start r new_ring = refl
length-copy_ring (suc left) i start r new_ring =
    let new_ring' = set new_ring i (oldest r) in
    ground (
      arith,
      length-copy_ring left (suc i) start (advance r) new_ring',
      length-set new_ring i (oldest r),
    )

set_max_events-configured :
    (m : ℤ) (r r' : RingBufferRateLimiter)
    → (r.window ≢ 0 → 0 < length r.ring)
    → (0 < length r.ring → r.cursor < length r.ring)
    → set_max_events m r ≡ ok r'
    → (r'.window ≢ 0 → 0 < length r'.ring) × (0 < length r'.ring → r'.cursor < length r'.ring)
unfolding set_max_events
set_max_events-configured (negsuc m) r r' a b e = cc
set_max_events-configured (pos m) r r' a b e =
    let moved = advance_times (length r.ring - m) r in
    ground
      (arith, length-copy_ring m 0 moved.cursor moved (replicate m 0), length-replicate {A = ℕ} m 0)

Step-IsConfigured : {s t : Machine} → Step s t → IsConfigured s.limiter → IsConfigured t.limiter
unfolding permit advance set_window
Step-IsConfigured (see_stopped s p) c = c
Step-IsConfigured (see_ring s p h) c = c
Step-IsConfigured (see_empty s p h) c = c
Step-IsConfigured (see_disabled s p w) c = c
Step-IsConfigured (see_invalid s p w) c = c
Step-IsConfigured (read s p h) c = c
Step-IsConfigured (read_past_end s p h) c = c
Step-IsConfigured (timer_fires s slot now p h) c = c
Step-IsConfigured (stop_waiting s slot p) c = c
Step-IsConfigured (ticket s now p) c =
    ground (arith, c.allows, c.inside, length-set s.limiter.ring s.limiter.cursor now)
Step-IsConfigured (stop_permit s p) c = c
Step-IsConfigured (set_events s m r e) c =
    let (a, b) = set_max_events-configured m s.limiter r c.allows c.inside e in
    record { allows = a; inside = b }
Step-IsConfigured (set_size s w r e) c = ground (arith, c.allows, c.inside)

Reach-IsConfigured_from :
    {s t : Machine} → IsConfigured s.limiter → Reach s t → IsConfigured t.limiter
Reach-IsConfigured_from c here = c
Reach-IsConfigured_from c (next r st) = Step-IsConfigured st (Reach-IsConfigured_from c r)

-- Whatever the goroutines do, in any order, after NewRateLimiter returned a limiter, also when the
-- loop panics: a window that is not zero goes with a ring that is not empty, and the cursor lies
-- inside a ring that is not empty.
pub Reach-IsConfigured :
    (m : ℤ) (w : ℕ) {r : RingBufferRateLimiter} {t : Machine}
    → new_rate_limiter m w ≡ ok r
    → Reach (start r) t
    → IsConfigured t.limiter
unfolding start
Reach-IsConfigured m w {r} e reach = Reach-IsConfigured_from (new-IsConfigured m w r e) reach

-- While the loop has seen an empty ring and has not yet looked at the window, SetMaxEvents with a
-- positive number and then SetWindow with a positive time, which do not panic and leave the limiter
-- with that number of slots and that window, make the loop panic over an invalid configuration.
pub set_window-crash :
    (s : Machine) (m w : ℕ)
    → s.phase ≡ emptied
    → length s.limiter.ring ≡ 0
    → 0 < m
    → 0 < w
    → (t : Machine) × Reach s t
      × (t.phase ≡ crashed_configuration)
      × (length t.limiter.ring ≡ m)
      × (t.limiter.window ≡ w)
unfolding set_max_events set_window
set_window-crash s m w p empty some_events some_time =
    let r = record s.limiter { ring = replicate m 0; cursor = 0 } in
    let size = length-replicate {A = ℕ} m 0 in
    let resized : set_max_events (pos m) s.limiter ≡ ok r = ground (arith, empty, some_events) in
    let t = record s { limiter = r } in
    let widened : set_window w r ≡ ok (record r { window = w }) =
      ground (arith, size, some_events) in
    let u = record t { limiter = record r { window = w } } in
    (
      record u { phase = crashed_configuration },
      next
          (next (next here (set_events s (pos m) r resized))
            (set_size t w (record r { window = w }) widened))
          (see_invalid u p (λ e. omega arith)),
      refl,
      size,
      refl,
    )

-- When the loop has seen a ring that is not empty and has not yet read its oldest time stamp, and
-- the window is zero, a SetMaxEvents(0) at that moment makes the read go past the end, and the
-- panic ends the loop.
pub set_max_events-crash :
    (s : Machine)
    → s.phase ≡ reading
    → s.limiter.window ≡ 0
    → 0 < length s.limiter.ring
    → (t : Machine) × Reach s t × (t.phase ≡ crashed_index) × (t.limiter.window ≡ 0)
unfolding set_max_events copy_ring
set_max_events-crash s p w h =
    let r = record s.limiter { ring = []; cursor = 0 } in
    let emptied : set_max_events (pos 0) s.limiter ≡ ok r = ground arith in
    let t = record s { limiter = r } in
    (
      record t { phase = crashed_index },
      next (next here (set_events s (pos 0) r emptied)) (read_past_end t p (omega arith)),
      refl,
      w,
    )
