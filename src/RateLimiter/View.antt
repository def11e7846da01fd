-- ===== src/RateLimiter/View.antt =====
-- ratelimiter.go: the ring as the queue of its time stamps, oldest first.
use certmagic.Prelude.{
  ℕ, zero, suc, ◌+◌, ◌≤◌, ◌<◌, ◌≡◌, refl, ap, sym, ◌∙◌, inl, inr, true, List, [], ◌∷◌, ◌++◌, leb,
  if◌then◌else◌, Bool-cases, leb→le, length, set, take, drop, length-set, length-append,
  length-take, length-drop, drop-get_or, take-suc, drop-suc-set, take-set, get_or-set, arith,
}
use mathlib.Core.List.{append-nil, append_assoc}
use certmagic.RateLimiter.{RingBufferRateLimiter, advance, oldest, permit}

-- The cursor lies inside a ring that is not empty.
pub record IsValid (r : RingBufferRateLimiter) : Type 0 where
  pub inside : r.cursor < length r.ring

abbrev pub view : RingBufferRateLimiter → List ℕ
view r = drop r.cursor r.ring ++ take r.cursor r.ring

-- The queue with its first element moved to the end.
abbrev pub rotate : List ℕ → List ℕ
rotate [] = []
rotate (t ∷ ts) = ts ++ t ∷ []

-- The queue without its first element and with a new last one.
abbrev pub push : ℕ → List ℕ → List ℕ
push now [] = []
push now (t ∷ ts) = ts ++ now ∷ []

pub length-view : (r : RingBufferRateLimiter) → IsValid r → length (view r) ≡ length r.ring
length-view r v = omega (
  arith,
  length-append (drop r.cursor r.ring) (take r.cursor r.ring),
  length-take r.cursor r.ring,
  length-drop r.cursor r.ring,
)

drop-past : (xs : List ℕ) (n : ℕ) → length xs ≤ n → drop n xs ≡ []
drop-past [] zero h = refl
drop-past [] (suc n) h = refl
drop-past (x ∷ xs) zero h = absurd (omega arith)
drop-past (x ∷ xs) (suc n) h = drop-past xs n (omega arith)

take-past : (xs : List ℕ) (n : ℕ) → length xs ≤ n → take n xs ≡ xs
take-past [] zero h = refl
take-past [] (suc n) h = refl
take-past (x ∷ xs) zero h = absurd (omega arith)
take-past (x ∷ xs) (suc n) h = ap (◌∷◌ x) (take-past xs n (omega arith))

-- The step of the cursor, on the ring alone.
view-step :
    (xs : List ℕ) (c : ℕ)
    → c < length xs
    → let c' = (if leb (length xs) (c + 1) then 0 else c + 1) in
      drop c' xs ++ take c' xs ≡ drop (suc c) xs ++ take (suc c) xs
view-step xs c h = elim (Bool-cases (leb (length xs) (c + 1))) [
  | inl e ↦ rw e (
      append-nil xs
      ∙ sym (take-past xs (suc c) (omega (arith, leb→le _ _ e)))
      ∙ ap (λ ys. ys ++ take (suc c) xs) (sym (drop-past xs (suc c) (omega (arith, leb→le _ _ e)))))
  | inr e ↦ let p : c + 1 ≡ suc c = omega arith in rw (e, p)
]

pub advance-IsValid : (r : RingBufferRateLimiter) → IsValid r → IsValid (advance r)
unfolding advance
advance-IsValid r v = ground arith

pub oldest-view :
    (r : RingBufferRateLimiter)
    → IsValid r
    → view r ≡ oldest r ∷ (drop (suc r.cursor) r.ring ++ take r.cursor r.ring)
unfolding oldest
oldest-view r v = rw (drop-get_or r.ring r.cursor 0 v.inside)

-- Advancing the cursor moves the oldest time stamp to the end.
pub view-advance : (r : RingBufferRateLimiter) → IsValid r → view (advance r) ≡ rotate (view r)
unfolding advance oldest
view-advance r v =
    view-step r.ring r.cursor v.inside
    ∙ ap (◌++◌ (drop (suc r.cursor) r.ring)) (take-suc r.ring r.cursor 0 v.inside)
    ∙ sym (append_assoc (drop (suc r.cursor) r.ring) (take r.cursor r.ring) (oldest r ∷ []))
    ∙ ap rotate (sym (oldest-view r v))

-- A ticket taken at the time `now` forgets the oldest time stamp and records `now` as the newest.
pub view-permit :
    (now : ℕ) (r : RingBufferRateLimiter) → IsValid r → view (permit now r) ≡ push now (view r)
unfolding permit advance oldest
view-permit now r v =
    let ring' = set r.ring r.cursor now in
    let inside' : r.cursor < length ring' =
      omega (arith, v.inside, length-set r.ring r.cursor now) in
    let one : leb 1 (length r.ring) ≡ true = ground (arith, v.inside) in
    rw one (
      view-step ring' r.cursor inside'
      ∙ ap (◌++◌ (drop (suc r.cursor) ring')) (take-suc ring' r.cursor 0 inside')
      ∙ rw
          (
            drop-suc-set r.ring r.cursor now,
            take-set r.ring r.cursor now,
            get_or-set r.ring r.cursor now 0 v.inside,
          )
          (sym (append_assoc (drop (suc r.cursor) r.ring) (take r.cursor r.ring) (now ∷ [])))
      ∙ ap (push now) (sym (oldest-view r v)))

pub permit-IsValid : (now : ℕ) (r : RingBufferRateLimiter) → IsValid r → IsValid (permit now r)
unfolding permit advance
permit-IsValid now r v = ground (arith, length-set r.ring r.cursor now)
