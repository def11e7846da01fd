-- ===== src/Tests/Jobs.antt =====
-- Jobs and retries, on short runs.
use certmagic.Prelude.{
  ◌*◌, ◌≤◌, ◌<◌, ◌≡◌, refl, false, none, List, [], ◌∷◌, get_or, codes, str_eq, elem, arith,
}
use Prim.Native.Nat.{min}
use certmagic.Async.Jobs.{NamedJob, System, after_submit, submits, takes, Reach, here, next, start}
use certmagic.Async.Workers.{IsConsistent, Reach-IsConsistent}
use certmagic.Async.Retry.{
  hour, minute, retry_intervals, success, failed, Round, returned, do_with_retry, next_index,
  wait_of,
}
use certmagic.Async.Retry.Waits.{do_with_retry-waits}
use certmagic.Async.Retry.Endings.{do_with_retry_exhausted}

abbrev obtain : NamedJob
obtain = record { name = codes "obtain"; job = 1 }

abbrev renew : NamedJob
renew = record { name = codes "renew"; job = 2 }

-- One worker takes a job, a second job waits, and the first job's second submission is dropped.
abbrev busy : System
busy = record {
  manager = record {
    max_concurrent_jobs = 1;
    active_workers = 1;
    queue = renew ∷ [];
    names = codes "renew" ∷ codes "obtain" ∷ [];
  };
  looping = 0;
  running = obtain ∷ [];
  crashed = [];
}

abbrev waiting : System
waiting = record {
  manager = record {
    max_concurrent_jobs = 1;
    active_workers = 1;
    queue = obtain ∷ [];
    names = codes "obtain" ∷ [];
  };
  looping = 1;
  running = [];
  crashed = [];
}

abbrev taken : System
taken = record {
  manager = record {
    max_concurrent_jobs = 1;
    active_workers = 1;
    queue = [];
    names = codes "obtain" ∷ [];
  };
  looping = 0;
  running = obtain ∷ [];
  crashed = [];
}

busy-Reach : Reach (start 1) busy
unfolding start after_submit str_eq elem
busy-Reach =
    next
      (next (next (next here (submits (start 1) obtain)) (takes waiting 0 obtain [] refl refl))
        (submits taken renew))
      (submits busy obtain)

Reach-IsConsistent_example : IsConsistent busy
Reach-IsConsistent_example = Reach-IsConsistent 1 (omega arith) busy-Reach

abbrev failing : Round
failing = record { elapsed = 0; done = false; outcome = failed 7; elapsed_after = hour }

abbrev late : Round
late = record failing { elapsed = 719 * hour; elapsed_after = 721 * hour }

abbrev succeeding : Round
succeeding = record failing { outcome = success }

abbrev attempts : List Round
attempts = failing ∷ failing ∷ succeeding ∷ []

do_with_retry_done : do_with_retry attempts ≡ (0 ∷ minute ∷ (2 * minute) ∷ [], returned none)
unfolding do_with_retry next_index wait_of
do_with_retry_done = refl

do_with_retry-waits_example :
    (get_or (do_with_retry attempts).0 0 0 ≡ 0)
    × (get_or (do_with_retry attempts).0 2 0 ≡ get_or retry_intervals (min 1 24) 0)
    × (get_or (do_with_retry attempts).0 1 0 ≤ get_or (do_with_retry attempts).0 2 0)
    × (0 < get_or (do_with_retry attempts).0 2 0)
    × (get_or (do_with_retry attempts).0 2 0 ≤ 6 * hour)
do_with_retry-waits_example = do_with_retry-waits attempts 1 (rw do_with_retry_done (omega arith))

do_with_retry_exhausted_example : (do_with_retry (failing ∷ late ∷ [])).1 ≡ returned none
do_with_retry_exhausted_example =
    do_with_retry_exhausted (failing ∷ late ∷ [])
      (refl, omega arith, (7, refl), omega arith, (refl, omega arith, (7, refl), omega arith))
