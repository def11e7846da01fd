-- ===== src/Tests/Limiter.antt =====
-- Runs of the rate limiter.
use certmagic.Prelude.{ℕ, ◌+◌, ◌≤◌, ◌≡◌, refl, List, [], ◌∷◌, length, get_or, arith, ok, pos}
use certmagic.RateLimiter.{
  RingBufferRateLimiter, new_rate_limiter, next_slot, set_max_events, permit,
}
use certmagic.RateLimiter.View.{IsValid, view}
use certmagic.RateLimiter.Window.{Grants, ticket, stop, Grants-limited}
use certmagic.RateLimiter.Resize.{resized, set_max_events-view}
use certmagic.RateLimiter.Loop.{
  Machine, reading, see_ring, Reach, here, next, start, IsConfigured, Reach-IsConfigured, emptied,
  crashed_configuration, set_window-crash,
}

abbrev two_slots : RingBufferRateLimiter
two_slots = record { window = 10; ring = 0 ∷ 0 ∷ []; cursor = 0 }

abbrev used : RingBufferRateLimiter
used = record { window = 10; ring = 30 ∷ 21 ∷ 25 ∷ []; cursor = 1 }

two_slots-IsValid : IsValid two_slots
two_slots-IsValid = record { inside = omega arith }

used-IsValid : IsValid used
used-IsValid = record { inside = omega arith }

abbrev times : List ℕ
times = 10 ∷ 11 ∷ 20 ∷ 21 ∷ []

-- Two tickets in a window of ten, twice.
times-Grants : Grants two_slots times
unfolding next_slot permit
times-Grants =
    ticket (omega arith) (ticket (omega arith) (ticket (omega arith) (ticket (omega arith) stop)))

Grants-limited_example :
    get_or times 1 0 + two_slots.window ≤ get_or times (1 + length two_slots.ring) 0
Grants-limited_example = Grants-limited 1 two_slots-IsValid times-Grants (omega arith)

shrunk : set_max_events (pos 2) used ≡ ok (record { window = 10; ring = 25 ∷ 30 ∷ []; cursor = 0 })
unfolding set_max_events
shrunk = refl

grown :
    set_max_events (pos 5) used
    ≡ ok (record { window = 10; ring = 21 ∷ 25 ∷ 30 ∷ 0 ∷ 0 ∷ []; cursor = 0 })
unfolding set_max_events
grown = refl

set_max_events-view_example :
    (r' : RingBufferRateLimiter) × (set_max_events (pos 2) used ≡ ok r')
    × (view r' ≡ resized 2 (view used))
    × (r'.window ≡ used.window)
set_max_events-view_example = set_max_events-view 2 used used-IsValid (λ e. absurd (omega arith))

abbrev looking : Machine
looking = record { limiter = two_slots; phase = reading }

looking-Reach : Reach (start two_slots) looking
unfolding start
looking-Reach = next here (see_ring (start two_slots) refl (omega arith))

two_slots_new : new_rate_limiter (pos 2) 10 ≡ ok two_slots
unfolding new_rate_limiter
two_slots_new = refl

Reach-IsConfigured_example : IsConfigured looking.limiter
Reach-IsConfigured_example = Reach-IsConfigured (pos 2) 10 two_slots_new looking-Reach

abbrev idle : Machine
idle = record { limiter = record { window = 0; ring = []; cursor = 0 }; phase = emptied }

set_window-crash_example :
    (t : Machine) × Reach idle t
    × (t.phase ≡ crashed_configuration)
    × (length t.limiter.ring ≡ 5)
    × (t.limiter.window ≡ 1)
set_window-crash_example = set_window-crash idle 5 1 refl refl (omega arith) (omega arith)

abbrev unlimited : Machine
unlimited = record { limiter = record { window = 0; ring = 0 ∷ []; cursor = 0 }; phase = reading }
