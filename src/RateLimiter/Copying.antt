-- ===== src/RateLimiter/Copying.antt =====
-- ratelimiter.go: what SetMaxEvents copies from the old ring into the new one.
use certmagic.Prelude.{
  ℕ, zero, suc, ◌+◌, ◌-◌, ◌≤◌, ◌<◌, ◌≡◌, refl, ap, sym, ◌∙◌, ◌⊎◌, true, false, List, [], ◌∷◌, ◌++◌,
  ◌==◌, length, set, take, drop, replicate, length-set, length-append, length-take, length-drop,
  take-append-drop, take-suc, take-set, get_or-set, take-length, length-replicate, arith,
}
use native.Mathlib.Nat.{add-zero, add-suc, suc-add, zero-add, sub-zero, zero-sub, suc-sub-suc}
use native.Mathlib.Numerals.{add-one}
use mathlib.Core.List.{append-nil, append_assoc}
use certmagic.RateLimiter.{RingBufferRateLimiter, advance, advance_times, oldest, copy_ring}
use certmagic.RateLimiter.View.{IsValid, view, rotate, oldest-view, view-advance, advance-IsValid}

drop-set : (xs : List ℕ) (i j v : ℕ) → i < j → drop j (set xs i v) ≡ drop j xs
drop-set [] i j v h = refl
drop-set (x ∷ xs) i zero v h = elim h [ ]
drop-set (x ∷ xs) zero (suc j) v h = refl
drop-set (x ∷ xs) (suc i) (suc j) v h = drop-set xs i j v (omega arith)

pub take-append : (k : ℕ) (xs ys : List ℕ) → k ≤ length xs → take k (xs ++ ys) ≡ take k xs
take-append zero xs ys h = refl
take-append (suc k) [] ys h = elim h [ ]
take-append (suc k) (x ∷ xs) ys h = ap (◌∷◌ x) (take-append k xs ys (omega arith))

drop-append : (k : ℕ) (xs ys : List ℕ) → k ≤ length xs → drop k (xs ++ ys) ≡ drop k xs ++ ys
drop-append zero xs ys h = refl
drop-append (suc k) [] ys h = elim h [ ]
drop-append (suc k) (x ∷ xs) ys h = drop-append k xs ys (omega arith)

-- `d` more steps take the cursor to `start`, and fewer do not.
record Gap (r : RingBufferRateLimiter) (start d : ℕ) : Type 0 where
  ahead : (r.cursor + d ≡ start) ⊎ (r.cursor + d ≡ start + length r.ring)
  positive : 0 < d
  short : d ≤ length r.ring
  inside : start < length r.ring

Gap-last :
    (r : RingBufferRateLimiter) (start : ℕ)
    → IsValid r
    → Gap r start 1
    → ((advance r).cursor == start) ≡ true
unfolding advance
Gap-last r start v g = ground (arith, v.inside, g.ahead, g.inside)

Gap-advance :
    (r : RingBufferRateLimiter) (start d : ℕ)
    → IsValid r
    → Gap r start (suc (suc d))
    → Gap (advance r) start (suc d) × (((advance r).cursor == start) ≡ false)
unfolding advance
Gap-advance r start d v g = ground (arith, v.inside, g.ahead, g.inside, g.short)

set-split : (xs : List ℕ) (i v : ℕ) → i < length xs → set xs i v ≡ take i xs ++ v ∷ drop (suc i) xs
set-split [] i v h = elim h [ ]
set-split (x ∷ xs) zero v h = refl
set-split (x ∷ xs) (suc i) v h = ap (◌∷◌ x) (set-split xs i v (omega arith))

length-rotated :
    (r : RingBufferRateLimiter)
    → IsValid r
    → length (drop (suc r.cursor) r.ring ++ take r.cursor r.ring) + 1 ≡ length r.ring
length-rotated r v = omega (
  arith,
  v.inside,
  length-append (drop (suc r.cursor) r.ring) (take r.cursor r.ring),
  length-take r.cursor r.ring,
  length-drop (suc r.cursor) r.ring,
)

-- The number of slots that are copied: all that are left, or all that are in the ring.
abbrev IsLeast : ℕ → ℕ → ℕ → Type 0
IsLeast k left d = ((k ≡ left) × (k ≤ d)) ⊎ ((k ≡ d) × (k ≤ left))

copied-none :
    (i k : ℕ) (q new_ring : List ℕ)
    → k ≡ 0
    → new_ring ≡ take i new_ring ++ (take k q ++ drop (i + k) new_ring)
copied-none i k q new_ring e = rw (e, add-zero) (sym (take-append-drop i new_ring))

copied-one :
    (i : ℕ) (r : RingBufferRateLimiter) (new_ring : List ℕ)
    → IsValid r
    → i < length new_ring
    → set new_ring i (oldest r) ≡ take i new_ring ++ (take 1 (view r) ++ drop (i + 1) new_ring)
copied-one i r new_ring v h = rw (oldest-view r v, add-one) (set-split new_ring i (oldest r) h)

copied-more :
    (i k : ℕ) (r : RingBufferRateLimiter) (new_ring : List ℕ)
    → IsValid r
    → i < length new_ring
    → k < length r.ring
    → let new_ring' = set new_ring i (oldest r) in
      take (suc i) new_ring' ++ (take k (view (advance r)) ++ drop (suc i + k) new_ring')
      ≡ take i new_ring ++ (take (suc k) (view r) ++ drop (i + suc k) new_ring)
copied-more i k r new_ring v h less =
    let new_ring' = set new_ring i (oldest r) in
    rw
      (
        view-advance r v,
        take-suc new_ring' i 0 (omega (arith, length-set new_ring i (oldest r))),
        take-set new_ring i (oldest r),
        get_or-set new_ring i (oldest r) 0 h,
        drop-set new_ring i (suc i + k) (oldest r) (omega arith),
        oldest-view r v,
        take-append k (drop (suc r.cursor) r.ring ++ take r.cursor r.ring) (oldest r ∷ [])
            (omega (arith, length-rotated r v)),
        add-suc,
        suc-add,
      )
      (append_assoc (take i new_ring) (oldest r ∷ []) _)

-- The loop copies the queue, from its oldest element, until it is all copied or the new ring full.
copied :
    (left i start d k : ℕ) (r : RingBufferRateLimiter) (new_ring : List ℕ)
    → IsValid r
    → Gap r start d
    → IsLeast k left d
    → i + left ≤ length new_ring
    → copy_ring left i start r new_ring
      ≡ take i new_ring ++ (take k (view r) ++ drop (i + k) new_ring)
unfolding copy_ring
copied zero i start d k r new_ring v g m h = copied-none i k (view r) new_ring (omega arith)
copied (suc left) i start zero k r new_ring v g m h = absurd (omega (arith, g.positive))
copied (suc left) i start (suc zero) k r new_ring v g m h =
    let one : k ≡ 1 = omega arith in
    rw (Gap-last r start v g, one) (copied-one i r new_ring v (omega arith))
copied (suc left) i start (suc (suc d)) zero r new_ring v g m h = absurd (omega arith)
copied (suc left) i start (suc (suc d)) (suc k) r new_ring v g m h =
    let (g', more) = Gap-advance r start d v g in
    rw more (
      copied left (suc i) start (suc d) k (advance r) (set new_ring i (oldest r))
        (advance-IsValid r v) g' (omega arith) (omega (arith, length-set new_ring i (oldest r)))
      ∙ copied-more i k r new_ring v (omega arith) (omega (arith, g.short)))

ring-advance : (r : RingBufferRateLimiter) → (advance r).ring ≡ r.ring
unfolding advance
ring-advance r = refl

pub advance_times_lem :
    (n : ℕ) (r : RingBufferRateLimiter)
    → IsValid r
    → n ≤ length r.ring
    → (p q : List ℕ) → view r ≡ p ++ q
    → length p ≡ n
    → IsValid (advance_times n r)
      × ((advance_times n r).ring ≡ r.ring)
      × (view (advance_times n r) ≡ q ++ p)
unfolding advance_times
advance_times_lem zero r v h [] q e l = (v, refl, e ∙ sym (append-nil q))
advance_times_lem zero r v h (x ∷ p) q e l = absurd (omega arith)
advance_times_lem (suc n) r v h [] q e l = absurd (omega arith)
advance_times_lem (suc n) r v h (x ∷ p) q e l =
    let (v', same, seen) =
      advance_times_lem n (advance r) (advance-IsValid r v) (rw (ring-advance r) (omega arith)) p
        (q ++ x ∷ []) (view-advance r v ∙ ap rotate e ∙ append_assoc p q (x ∷ [])) (omega arith) in
    (v', same ∙ ring-advance r, seen ∙ append_assoc q (x ∷ []) p)

Gap-full : (r : RingBufferRateLimiter) → IsValid r → Gap r r.cursor (length r.ring)
Gap-full r v = ground (arith, v.inside)

-- The ring that SetMaxEvents makes from a ring that is not empty.
pub copied-all :
    (m k : ℕ) (r : RingBufferRateLimiter)
    → IsValid r
    → IsLeast k m (length r.ring)
    → copy_ring m 0 r.cursor r (replicate m 0) ≡ take k (view r) ++ drop k (replicate m 0)
copied-all m k r v e = rw zero-add at (
    copied m 0 r.cursor (length r.ring) k r (replicate m 0) v (Gap-full r v) e
      (omega (arith, length-replicate {A = ℕ} m 0)))

pub drop-replicate : (n m : ℕ) → drop n (replicate {A = ℕ} m 0) ≡ replicate (m - n) 0
drop-replicate zero m = rw sub-zero
drop-replicate (suc n) zero = rw zero-sub
drop-replicate (suc n) (suc m) = rw suc-sub-suc (drop-replicate n m)

pub take_of_length : (n : ℕ) (xs : List ℕ) → length xs ≡ n → take n xs ≡ xs
take_of_length n xs e = rw (← e) (take-length xs)
