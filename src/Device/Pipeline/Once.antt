-- ===== src/Device/Pipeline/Once.antt =====
-- Every command that the worker of R2000 accepts is answered at most once, and none is lost but in the worker's destructor (src/R2000.cpp,
-- include/Worker.hpp).
use r.Base.{
  ℕ, ◌+◌, ◌≡◌, refl, ◌∙◌, ap, arith, Bool, true, false, ◌&&◌, Bool-cases, inl, inr, List, [], ◌∷◌,
  ◌++◌, ◌==◌, leb, length, Option, none, some, if◌then◌else◌,
}
use r.Device.{PropertyTrees}
use r.Device.Http.{Exchange}
use r.Device.Worker.{push_job, work}
use r.Device.Async as Async
use r.Device.Async.{ErrorCode}
use r.Device.Async.Answers.{one_if, answers_of, pending_of, jobs_of, run-known}
use r.Device.Service.{
  Operation, Service, Event, job, completes, resolver_deadline, socket_deadline, cancels, destroys,
  returns, waits, operation_at, serves, may_complete,
}
use r.Device.Service.Handlers.{happens}
use r.Device.Service.Forget.{forget, pendings, told, told_completion}
use r.Device.Service.Simulation.{forget-happens}
use r.Device.Pipeline as Pipeline
use r.Device.Pipeline.{
  Pipeline, Step, sends, swaps, performs, is_job, times, held, async_send_http_command, swap_at,
  perform_at, clear_at, cleared_at, interrupts, clears, step, steps, accepted_of, cleared_of,
}

times-append : (c : ℕ) (xs ys : List ℕ) → times c (xs ++ ys) ≡ times c xs + times c ys
times-append c [] ys = omega arith
times-append c (x ∷ xs) ys = omega (arith, times-append c xs ys)

if_add : (b : Bool) (m n : ℕ) → (if b then m + n else n) ≡ (if b then m else 0) + n
if_add true m n = refl
if_add false m n = omega arith

jobs_of-completion :
    {T : Type 0} (c : ℕ) (o : Option Operation) (i : ℕ) (error : ErrorCode) (queried : List ℕ)
    (x : Exchange) (s : Service T)
    → jobs_of c (told_completion o i error queried x s) ≡ 0
jobs_of-completion c none i error queried x s = refl
jobs_of-completion c (some o) i error queried x s =
    elim (Bool-cases (serves s && may_complete error o)) [ inl e ↦ rw e refl | inr e ↦ rw e refl ]

jobs_of-told :
    {T : Type 0} (c : ℕ) (e : Event) (s : Service T) → is_job e ≡ false → jobs_of c (told e s) ≡ 0
jobs_of-told c (job command limit now) s h = cc
jobs_of-told c (completes i error queried x now) s h =
    jobs_of-completion c (operation_at i s.operations) i error queried x s
jobs_of-told c (resolver_deadline now) s h = refl
jobs_of-told c (socket_deadline now) s h = refl
jobs_of-told c cancels s h = refl
jobs_of-told c destroys s h = refl
jobs_of-told c returns s h = refl
jobs_of-told c waits s h = refl

module _ {T : Type 0} (trees : PropertyTrees T) (c : ℕ) where
  abbrev served : Service T → ℕ
  served s = answers_of c s.answers + pending_of c (pendings s.operations)

  served-happens :
      (e : Event) (s : Service T) → served (happens trees e s) ≡ jobs_of c (told e s) + served s
  served-happens e s =
      ap (λ (q : Async.Requests T). answers_of c q.answers + pending_of c q.pending)
        (forget-happens trees e s)
      ∙ run-known trees c (told e s) (forget s)

  held-swap : (xs : List ℕ) (p : Pipeline T) → p.taken ≡ xs → held c (swap_at trees xs p) ≡ held c p
  unfolding work
  held-swap [] p e = elim (Bool-cases p.worker.interrupt_flag) [
    | inl over ↦ rw over refl
    | inr runs ↦ rw (runs, e) (omega arith)
  ]
  held-swap (x ∷ xs) p e = refl

  held-perform :
      (xs : List ℕ) (limit now : ℕ) (p : Pipeline T)
      → p.taken ≡ xs
      → held c (perform_at trees xs limit now p) ≡ held c p
  unfolding perform_at
  held-perform [] limit now p e = refl
  held-perform (x ∷ xs) limit now p e =
      let done_job = served-happens (job x limit now) p.service in
      let queue = ap (times c) e in omega (arith, done_job, queue)

  held-serves : (e : Event) (p : Pipeline T) → held c (step trees (Pipeline.serves e) p) ≡ held c p
  unfolding step
  held-serves e p = elim (Bool-cases (is_job e)) [
    | inl is ↦ rw is refl
    | inr not_job ↦
        rw not_job (omega (arith, served-happens e p.service, jobs_of-told c e p.service not_job))
  ]

  held-sends :
      (d : ℕ) (p : Pipeline T)
      → held c (step trees (sends d) p)
        ≡ (if (async_send_http_command trees d p).1 then one_if (d == c) else 0) + held c p
  unfolding step async_send_http_command push_job
  held-sends d p = elim (Bool-cases (leb (length p.worker.jobs) p.worker.max_job)) [
    | inl room ↦ rw room (omega (arith, times-append c p.worker.jobs (d ∷ [])))
    | inr full ↦ rw full (omega arith)
  ]

  held-clear :
      (xs : List ℕ) (p : Pipeline T)
      → p.taken ≡ xs
      → held c (clear_at trees xs p) + cleared_at trees c xs p ≡ held c p
  held-clear [] p e = elim (Bool-cases p.worker.interrupt_flag) [
    | inl over ↦ rw over (omega arith)
    | inr runs ↦ rw runs (omega arith)
  ]
  held-clear (x ∷ xs) p e = omega arith

  -- Clients send commands, the worker takes and runs their jobs, the io service meets its events, and the
  -- destructors of R2000 and of the worker run, in any order. However that goes, a command is as often in
  -- the queue, taken by the worker, under way or answered as before, once more for each time that it was
  -- accepted, and once less for each time that the worker's destructor found it in the queue: no other
  -- accepted command is lost, none is answered twice, and a refused one is never answered.
  pub held-steps :
      (ss : List Step) (p : Pipeline T)
      → held c (steps trees ss p) + cleared_of trees c ss p ≡ accepted_of trees c ss p + held c p
  unfolding steps
  held-steps [] p = omega arith
  held-steps (sends d ∷ ss) p = omega (
    arith,
    held-steps ss (step trees (sends d) p),
    held-sends d p,
    if_add (async_send_http_command trees d p).1 (one_if (d == c))
        (accepted_of trees c ss (step trees (sends d) p)),
  )
  held-steps (swaps ∷ ss) p =
      omega (arith, held-steps ss (step trees swaps p), held-swap p.taken p refl)
  held-steps (performs limit now ∷ ss) p = omega (
    arith,
    held-steps ss (step trees (performs limit now) p),
    held-perform p.taken limit now p refl,
  )
  held-steps (Pipeline.serves e ∷ ss) p =
      omega (arith, held-steps ss (step trees (Pipeline.serves e) p), held-serves e p)
  held-steps (interrupts ∷ ss) p =
      unfold step in held-steps ss (record p { worker = record p.worker { interrupt_flag = true } })
  held-steps (clears ∷ ss) p =
      let after = held-clear p.taken p refl in
      unfold step in omega (arith, held-steps ss (clear_at trees p.taken p), after)
