-- ===== src/Solvers/Waiting.antt =====
-- solvers.go: DNSManager.wait, over what the clock, the context and the check do in each round.
use certmagic.Prelude.{
  ℕ, zero, suc, ◌≡◌, refl, inl, inr, Bool, true, false, ◌&&◌, Bool-cases, ◌⊎◌, List, [], ◌∷◌, ltb,
  leb, if◌then◌else◌, Among, Result, ok, err, ℤ, pos, negsuc,
}
use certmagic.Dns.{DnsError}

abbrev pub default_dns_propagation_timeout : ℕ
default_dns_propagation_timeout = 120000000000

-- The time since the start at the loop's test, whether the context ends in the pause, and what the
-- check of the propagation gives.
pub record WaitRound : Type 0 where
  pub elapsed : ℕ
  pub ended : Bool
  pub checked : Result DnsError Bool

-- How far a wait came: it returned without an error or with one, or its next round is to come.
pub data WaitEnd : Type 0 where
  finished wait_ended timed_out still_waiting : WaitEnd
  check_failed : DnsError → WaitEnd

-- Whether a timeout is not over: zero stands for the default, and a negative one is over.
unfoldable pub in_time : ℤ → ℕ → Bool
in_time (pos zero) elapsed = ltb elapsed default_dns_propagation_timeout
in_time (pos (suc n)) elapsed = ltb elapsed (suc n)
in_time (negsuc n) elapsed = false

unfoldable pub after_check : Result DnsError Bool → WaitEnd → WaitEnd
after_check (err e) rest = check_failed e
after_check (ok true) rest = finished
after_check (ok false) rest = rest

unfoldable pub wait_loop : ℤ → List WaitRound → WaitEnd
unfolding in_time after_check
wait_loop timeout [] = still_waiting
wait_loop timeout (r ∷ rounds) =
    let rest = wait_loop timeout rounds in
    if in_time timeout r.elapsed
    then (if r.ended then wait_ended else after_check r.checked rest)
    else timed_out

-- A timeout of -1 turns the checks off.
unfoldable pub no_checks : ℤ → Bool
no_checks (negsuc zero) = true
no_checks _ = false

-- `ended` is whether the context ends in the delay.
unfoldable pub wait : (delay : ℕ) (ended : Bool) → ℤ → List WaitRound → WaitEnd
unfolding wait_loop no_checks
wait delay ended timeout rounds =
    if leb 1 delay && ended
    then wait_ended
    else if no_checks timeout
    then finished
    else wait_loop timeout rounds

-- The record showed in time, in a round before which the context had not ended.
pub record IsShownBy (timeout : ℤ) (r : WaitRound) : Type 0 where
  pub early : in_time timeout r.elapsed ≡ true
  pub going : r.ended ≡ false
  pub shown : r.checked ≡ ok true

after_check-finished :
    (c : Result DnsError Bool) (rest : WaitEnd)
    → after_check c rest ≡ finished
    → (c ≡ ok true) ⊎ (rest ≡ finished)
unfolding after_check
after_check-finished (err e) rest h = cc
after_check-finished (ok true) rest h = inl refl
after_check-finished (ok false) rest h = inr h

loop-finished :
    (timeout : ℤ) (rounds : List WaitRound)
    → wait_loop timeout rounds ≡ finished
    → (r : WaitRound) × Among r rounds × IsShownBy timeout r
unfolding wait_loop
loop-finished timeout [] h = cc
loop-finished timeout (r ∷ rounds) h =
    let later = loop-finished timeout rounds in
    elim (Bool-cases (in_time timeout r.elapsed)) [
      | inr late ↦ let q = rw late at h in cc
      | inl early ↦ elim (Bool-cases r.ended) [
        | inl over ↦ let q = rw (early, over) at h in cc
        | inr going ↦ elim (after_check-finished r.checked _ (rw (early, going) at h)) [
          | inl shown ↦ (r, inl refl, record { early = early; going = going; shown = shown })
          | inr rest ↦ let (r', among, is) = later rest in (r', inr among, is)
        ]
      ]
    ]

-- If the wait returns without an error, the checks are turned off, or a check in time, with the
-- context not ended, gave that the record has propagated.
pub wait-finished :
    (delay : ℕ) (ended : Bool) (timeout : ℤ) (rounds : List WaitRound)
    → wait delay ended timeout rounds ≡ finished
    → (timeout ≡ negsuc 0) ⊎ ((r : WaitRound) × Among r rounds × IsShownBy timeout r)
unfolding wait no_checks
wait-finished delay ended timeout rounds h = elim (Bool-cases (leb 1 delay && ended)) [
  | inl over ↦ let q = rw over at h in cc
  | inr going ↦ by_timeout timeout (rw going at h)
]
  where
    by_timeout :
        (t : ℤ)
        → (if no_checks t then finished else wait_loop t rounds) ≡ finished
        → (t ≡ negsuc 0) ⊎ ((r : WaitRound) × Among r rounds × IsShownBy t r)
    by_timeout (negsuc zero) k = inl refl
    by_timeout (negsuc (suc n)) k = inr (loop-finished (negsuc (suc n)) rounds k)
    by_timeout (pos n) k = inr (loop-finished (pos n) rounds k)
