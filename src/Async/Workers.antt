-- ===== src/Async/Workers.antt =====
-- async.go: what holds of the job manager in every interleaving of its callers and workers.
use certmagic.Prelude.{
  ℕ, suc, ◌+◌, ◌≤◌, ◌<◌, ◌≡◌, ◌≢◌, refl, ap, ◌∙◌, Bool, true, false, List, [], ◌∷◌, ◌++◌,
  if◌then◌else◌, length, length-append, Str, str_eq, str_eq_iff, elem, ◌||◌, arith,
}
use certmagic.Async.Jobs.{
  NamedJob, JobManager, without_name, submit, enqueue, forget, System, after_submit, Step, submits,
  takes, exits, finishes, panics, Reach, here, next, start,
}

-- How many jobs of a list have a name.
unfoldable pub count_name : Str → List NamedJob → ℕ
count_name n [] = 0
count_name n (j ∷ js) = if str_eq j.name n then suc (count_name n js) else count_name n js

pub count_name-append :
    (n : Str) (xs ys : List NamedJob) → count_name n (xs ++ ys) ≡ count_name n xs + count_name n ys
unfolding count_name
count_name-append n [] ys = omega arith
count_name-append n (x ∷ xs) ys = ground (arith, count_name-append n xs ys)

-- The jobs that are known: queued, running, or ended by a panic.
abbrev pub known : Str → System → ℕ
known n s = count_name n s.manager.queue + (count_name n s.running + count_name n s.crashed)

abbrev pub one_if : Bool → ℕ
one_if true = 1
one_if false = 0

pub record IsConsistent (s : System) : Type 0 where
  pub workers : s.manager.active_workers ≡ s.looping + (length s.running + length s.crashed)
  pub bounded : s.manager.active_workers ≤ s.manager.max_concurrent_jobs
  pub served : s.manager.queue ≢ [] → 0 < s.manager.active_workers
  pub unique : (n : Str) → n ≢ [] → known n s ≡ one_if (elem n s.manager.names)

elem-without_name :
    (k n : Str) (ms : List Str)
    → elem k (without_name n ms) ≡ (if str_eq k n then false else elem k ms)
unfolding elem without_name
elem-without_name k n [] = ground arith
elem-without_name k n (m ∷ ms) =
    ground (arith, elem-without_name k n ms, str_eq_iff k n, str_eq_iff k m, str_eq_iff m n)

start-IsConsistent : (max : ℕ) → IsConsistent (start max)
unfolding start count_name elem
start-IsConsistent max = record {
  workers = omega arith;
  bounded = omega arith;
  served = λ h. absurd (h refl);
  unique = λ n h. refl;
}

elem-cons : (n m : Str) (ms : List Str) → elem n (m ∷ ms) ≡ (str_eq n m || elem n ms)
unfolding elem
elem-cons n m ms = refl

count_name-one : (n : Str) (j : NamedJob) → count_name n (j ∷ []) ≡ one_if (str_eq j.name n)
unfolding count_name
count_name-one n j = ground arith

submit_unique :
    (s : System) (j : NamedJob)
    → IsConsistent s
    → (n : Str) → n ≢ []
    → known n (after_submit j s) ≡ one_if (elem n (after_submit j s).manager.names)
unfolding after_submit submit enqueue
submit_unique s j c n h = ground (
  arith,
  c.unique n h,
  count_name-append n s.manager.queue (j ∷ []),
  count_name-one n j,
  elem-cons n j.name s.manager.names,
  str_eq_iff j.name n,
  str_eq_iff n j.name,
  str_eq_iff j.name [],
)

submit-IsConsistent :
    (s : System) (j : NamedJob)
    → 0 < s.manager.max_concurrent_jobs
    → IsConsistent s
    → IsConsistent (after_submit j s)
unfolding after_submit submit enqueue
submit-IsConsistent s j pos c = record {
  workers = ground (arith, c.workers);
  bounded = ground (arith, c.bounded);
  served = λ h. ground (arith, c.served, c.bounded, pos);
  unique = λ n h. submit_unique s j c n h;
}

length-removed :
    (before : List NamedJob) (j : NamedJob) (after : List NamedJob)
    → length (before ++ j ∷ after) ≡ length (before ++ after) + 1
length-removed before j after =
    omega (arith, length-append before (j ∷ after), length-append before after)

count_name-removed :
    (n : Str) (before : List NamedJob) (j : NamedJob) (after : List NamedJob)
    → count_name n (before ++ j ∷ after) ≡ count_name n (before ++ after) + one_if (str_eq j.name n)
count_name-removed n before j after =
    let cons = count_name-append n (j ∷ []) after in
    omega (
      arith,
      count_name-append n before (j ∷ after),
      count_name-append n before after,
      count_name-one n j,
      cons,
    )

takes_unique :
    (n : Str) (j : NamedJob) (js : List NamedJob)
    → count_name n (j ∷ js) ≡ one_if (str_eq j.name n) + count_name n js
unfolding count_name
takes_unique n j js = ground arith

finish_unique :
    (s : System) (before : List NamedJob) (j : NamedJob) (after : List NamedJob)
    → s.running ≡ before ++ j ∷ after
    → IsConsistent s
    → (n : Str) → n ≢ []
    → count_name n s.manager.queue + (count_name n (before ++ after) + count_name n s.crashed)
      ≡ one_if (elem n (forget j s.manager).names)
unfolding forget
finish_unique s before j after e c n h = ground (
  arith,
  c.unique n h,
  ap (count_name n) e,
  count_name-removed n before j after,
  elem-without_name n j.name s.manager.names,
  str_eq_iff j.name n,
  str_eq_iff n j.name,
  str_eq_iff j.name [],
)

active_forget : (j : NamedJob) (jm : JobManager) → (forget j jm).active_workers ≡ jm.active_workers
unfolding forget
active_forget j jm = ground arith

max_forget :
    (j : NamedJob) (jm : JobManager) → (forget j jm).max_concurrent_jobs ≡ jm.max_concurrent_jobs
unfolding forget
max_forget j jm = ground arith

queue_forget : (j : NamedJob) (jm : JobManager) → (forget j jm).queue ≡ jm.queue
unfolding forget
queue_forget j jm = ground arith

Step-IsConsistent :
    {s t : System} → Step s t → 0 < s.manager.max_concurrent_jobs → IsConsistent s → IsConsistent t
Step-IsConsistent (submits s j) pos c = submit-IsConsistent s j pos c
Step-IsConsistent (takes s n job rest l q) pos c = record {
  workers = omega (arith, c.workers);
  bounded = c.bounded;
  served = λ h. omega (arith, c.served (λ e. cc (q, e)));
  unique = λ k h. omega (
    arith,
    c.unique k h,
    ap (count_name k) q,
    takes_unique k job rest,
    takes_unique k job s.running,
  );
}
Step-IsConsistent (exits s n l q) pos c = record {
  workers = omega (arith, c.workers);
  bounded = omega (arith, c.bounded);
  served = λ h. absurd (h q);
  unique = λ k h. c.unique k h;
}
Step-IsConsistent (finishes s before j after e) pos c = record {
  workers =
      rw (active_forget j s.manager)
        (omega (arith, c.workers, ap length e, length-removed before j after));
  bounded = rw (active_forget j s.manager, max_forget j s.manager) c.bounded;
  served = rw (active_forget j s.manager, queue_forget j s.manager) c.served;
  unique = λ k h. rw (queue_forget j s.manager) (finish_unique s before j after e c k h);
}
Step-IsConsistent (panics s before j after e) pos c = record {
  workers = omega (arith, c.workers, ap length e, length-removed before j after);
  bounded = c.bounded;
  served = c.served;
  unique = λ k h. omega (
    arith,
    c.unique k h,
    ap (count_name k) e,
    count_name-removed k before j after,
    takes_unique k j s.crashed,
  );
}

Step-max : {s t : System} → Step s t → t.manager.max_concurrent_jobs ≡ s.manager.max_concurrent_jobs
unfolding after_submit submit enqueue forget
Step-max (submits s j) = ground arith
Step-max (takes s n job rest l q) = refl
Step-max (exits s n l q) = refl
Step-max (finishes s before j after e) = ground arith
Step-max (panics s before j after e) = refl

Reach-both :
    {s t : System}
    → Reach s t
    → 0 < s.manager.max_concurrent_jobs
    → IsConsistent s
    → IsConsistent t × (t.manager.max_concurrent_jobs ≡ s.manager.max_concurrent_jobs)
Reach-both here pos c = (c, refl)
Reach-both (next r st) pos c =
    let (c', same) = Reach-both r pos c in
    (Step-IsConsistent st (omega arith) c', Step-max st ∙ same)

-- From the start with room for at least one job, in every interleaving of submissions, workers and
-- panics: the worker count is that of the goroutines that loop or run a job and of the panics,
-- there are never more workers than allowed, and of each name that is not empty at most one job is
-- queued, running or ended by a panic, which is exactly when the name is in the set of names.
pub Reach-IsConsistent : (max : ℕ) {t : System} → 0 < max → Reach (start max) t → IsConsistent t
Reach-IsConsistent max pos r = (Reach-both r (unfold start in pos) (start-IsConsistent max)).0

-- A worker at the top of its loop, at once or after a job has returned.
abbrev HasLooper : System → Type 0
HasLooper t =
    (u : System) × ((n : ℕ) × (Reach t u
        × (u.looping ≡ suc n)
        × (u.manager.queue ≡ t.manager.queue)
        × (u.crashed ≡ t.crashed)))
