-- ===== src/Device/Worker/Order.antt =====
-- The jobs of a worker (include/Worker.hpp) under any sequence of pushes, rounds of its thread and
-- interruptions.
use r.Base.{
  ℕ, ◌+◌, ◌≤◌, ◌≡◌, ◌⊎◌, refl, sym, ◌∙◌, ap, true, false, Bool-cases, inl, inr, List, [], ◌∷◌, ◌++◌,
  append_assoc, append-nil, length, length-append, leb, if◌then◌else◌, arith,
}
use r.Device.Worker.{
  Worker, push_job, work, interrupt, Step, push, round, stop, step, run, accepted,
}

IsRunning : Worker → Type 0
IsRunning w = w.interrupt_flag ≡ false

push_job-jobs :
    (job : ℕ) (w : Worker)
    → ((push_job job w).0 ≡ record w { jobs = w.jobs ++ job ∷ [] }) × ((push_job job w).1 ≡ true)
      ⊎ ((push_job job w).0 ≡ w) × ((push_job job w).1 ≡ false)
unfolding push_job
push_job-jobs job w = elim (Bool-cases (leb (length w.jobs) w.max_job)) [
  | inl e ↦ inl (rw e, rw e)
  | inr e ↦ inr (rw e, rw e)
]

work-interrupted : (w : Worker) → w.interrupt_flag ≡ true → work w ≡ w
unfolding work
work-interrupted w h = ap (λ b. if b then w else record w { jobs = []; ran = w.ran ++ w.jobs }) h

work-running :
    (w : Worker) → w.interrupt_flag ≡ false → work w ≡ record w { jobs = []; ran = w.ran ++ w.jobs }
unfolding work
work-running w h = ap (λ b. if b then w else record w { jobs = []; ran = w.ran ++ w.jobs }) h

interrupt-interrupted : (w : Worker) → w.interrupt_flag ≡ true → interrupt w ≡ w
unfolding interrupt
interrupt-interrupted w h =
    ap (λ b. if b then w else record w { interrupt_flag = true; jobs = [] }) h

interrupt-running :
    (w : Worker)
    → w.interrupt_flag ≡ false
    → interrupt w ≡ record w { interrupt_flag = true; jobs = [] }
unfolding interrupt
interrupt-running w h = ap (λ b. if b then w else record w { interrupt_flag = true; jobs = [] }) h

-- What is no longer run.
stopped_ran : (ss : List Step) (w : Worker) → w.interrupt_flag ≡ true → (run ss w).ran ≡ w.ran
unfolding run step
stopped_ran [] w h = refl
stopped_ran (push job ∷ ss) w h = elim (push_job-jobs job w) [
  | inl (e, f) ↦
      ap (λ v. (run ss v).ran) e ∙ stopped_ran ss (record w { jobs = w.jobs ++ job ∷ [] }) h
  | inr (e, f) ↦ ap (λ v. (run ss v).ran) e ∙ stopped_ran ss w h
]
stopped_ran (round ∷ ss) w h = ap (λ v. (run ss v).ran) (work-interrupted w h) ∙ stopped_ran ss w h
stopped_ran (stop ∷ ss) w h =
    ap (λ v. (run ss v).ran) (interrupt-interrupted w h) ∙ stopped_ran ss w h

append_assoc_push :
    (ran jobs : List ℕ) (job : ℕ) (later : List ℕ)
    → ran ++ (jobs ++ job ∷ []) ++ later ≡ ran ++ jobs ++ job ∷ later
append_assoc_push ran jobs job later = simp append_assoc

-- What is accepted behind one push.
accepted-push :
    (job : ℕ) (ss : List Step) (w : Worker)
    → accepted (push job ∷ ss) w ≡ (
        if (push_job job w).1
        then job ∷ accepted ss (push_job job w).0
        else accepted ss (push_job job w).0)
unfolding accepted step
accepted-push job ss w = refl

-- The jobs that have been invoked when any sequence of pushes, rounds and interruptions is over are a
-- prefix of those that had been invoked or queued at its start, followed by the accepted ones in the
-- order of their pushes: no job is skipped, run twice or overtaken.
pub run-accepted :
    (ss : List Step) (w : Worker)
    → (rest : List ℕ) × ((run ss w).ran ++ rest ≡ w.ran ++ w.jobs ++ accepted ss w)
unfolding run step accepted
run-accepted [] w = (w.jobs, sym (append-nil (w.ran ++ w.jobs)))
run-accepted (push job ∷ ss) w = elim (push_job-jobs job w) [
  | inl (e, f) ↦
      let w' : Worker = record w { jobs = w.jobs ++ job ∷ [] } in
      let (rest, later) = run-accepted ss w' in
      (
        rest,
        ap (λ v. (run ss v).ran ++ rest) e
            ∙ later
            ∙ append_assoc_push w.ran w.jobs job (accepted ss w')
            ∙ ap (λ l. w.ran ++ w.jobs ++ l) (sym (accepted-push job ss w ∙ rw (f, e))),
      )
  | inr (e, f) ↦
      let (rest, later) = run-accepted ss w in
      (
        rest,
        ap (λ v. (run ss v).ran ++ rest) e
            ∙ later
            ∙ ap (λ l. w.ran ++ w.jobs ++ l) (sym (accepted-push job ss w ∙ rw (f, e))),
      )
]
run-accepted (round ∷ ss) w = elim (Bool-cases w.interrupt_flag) [
  | inl h ↦
      let (rest, later) = run-accepted ss w in
      let same_worker = work-interrupted w h in
      (
        rest,
        ap (λ v. (run ss v).ran ++ rest) same_worker
            ∙ later
            ∙ ap (λ v. w.ran ++ w.jobs ++ accepted ss v) (sym same_worker),
      )
  | inr h ↦
      let (rest, later) = run-accepted ss (record w { jobs = []; ran = w.ran ++ w.jobs }) in
      let emptied = work-running w h in
      (
        rest,
        ap (λ v. (run ss v).ran ++ rest) emptied
            ∙ later
            ∙ ap (λ l. l ++ accepted ss (record w { jobs = []; ran = w.ran ++ w.jobs }))
                (append-nil (w.ran ++ w.jobs))
            ∙ ap (λ v. w.ran ++ w.jobs ++ accepted ss v) (sym emptied),
      )
]
run-accepted (stop ∷ ss) w = elim (Bool-cases w.interrupt_flag) [
  | inl h ↦
      let (rest, later) = run-accepted ss w in
      let same_worker = interrupt-interrupted w h in
      (
        rest,
        ap (λ v. (run ss v).ran ++ rest) same_worker
            ∙ later
            ∙ ap (λ v. w.ran ++ w.jobs ++ accepted ss v) (sym same_worker),
      )
  | inr h ↦
      let stopped : Worker = record w { interrupt_flag = true; jobs = [] } in
      let halted = interrupt-running w h in
      (
        w.jobs ++ accepted ss (interrupt w),
        ap (λ v. (run ss v).ran ++ (w.jobs ++ accepted ss (interrupt w))) halted
            ∙ ap (λ l. l ++ (w.jobs ++ accepted ss (interrupt w))) (stopped_ran ss stopped refl)
            ∙ sym (append_assoc w.ran w.jobs (accepted ss (interrupt w))),
      )
]

bounded_push :
    (job : ℕ) (w : Worker)
    → length w.jobs ≤ w.max_job + 1
    → (length (push_job job w).0.jobs ≤ w.max_job + 1) × ((push_job job w).0.max_job ≡ w.max_job)
unfolding push_job
bounded_push job w h = elim (Bool-cases (leb (length w.jobs) w.max_job)) [
  | inl e ↦ rw (e, length-append w.jobs (job ∷ [])) (ground arith, refl)
  | inr e ↦ rw e (h, refl)
]

bounded_work :
    (w : Worker)
    → length w.jobs ≤ w.max_job + 1
    → (length (work w).jobs ≤ w.max_job + 1) × ((work w).max_job ≡ w.max_job)
unfolding work
bounded_work w h = elim (Bool-cases w.interrupt_flag) [
  | inl e ↦ rw e (h, refl)
  | inr e ↦ rw e (omega arith, refl)
]

bounded_interrupt :
    (w : Worker)
    → length w.jobs ≤ w.max_job + 1
    → (length (interrupt w).jobs ≤ w.max_job + 1) × ((interrupt w).max_job ≡ w.max_job)
unfolding interrupt
bounded_interrupt w h = elim (Bool-cases w.interrupt_flag) [
  | inl e ↦ rw e (h, refl)
  | inr e ↦ rw e (omega arith, refl)
]

-- Whatever happens to a worker, a queue that holds one job more than the maximum at most goes on to
-- hold no more than that.
pub run-bounded :
    (ss : List Step) (w : Worker)
    → length w.jobs ≤ w.max_job + 1
    → length (run ss w).jobs ≤ w.max_job + 1
unfolding run step
run-bounded [] w h = h
run-bounded (push job ∷ ss) w h =
    let (b, e) = bounded_push job w h in rw e at (run-bounded ss (push_job job w).0 (omega arith))
run-bounded (round ∷ ss) w h =
    let (b, e) = bounded_work w h in rw e at (run-bounded ss (work w) (omega arith))
run-bounded (stop ∷ ss) w h =
    let (b, e) = bounded_interrupt w h in rw e at (run-bounded ss (interrupt w) (omega arith))

-- A job that is pushed while as many jobs as the maximum are waiting is still accepted, and one more is
-- refused.
pub push_job-full :
    (first second : ℕ) (w : Worker)
    → length w.jobs ≡ w.max_job
    → ((push_job first w).1 ≡ true) × ((push_job second (push_job first w).0).1 ≡ false)
unfolding push_job
push_job-full first second w h =
    let room : leb (length w.jobs) w.max_job ≡ true = ground arith in
    let longer : length (w.jobs ++ first ∷ []) ≡ length w.jobs + 1 =
      length-append w.jobs (first ∷ []) in
    let no_room : leb (length (w.jobs ++ first ∷ [])) w.max_job ≡ false = ground arith in
    rw (room, no_room) (refl, refl)
