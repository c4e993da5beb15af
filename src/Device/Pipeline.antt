-- ===== src/Device/Pipeline.antt =====
-- The way of an asynchronous command through R2000 (`asyncSendHttpCommand` of src/R2000.cpp): a client
-- pushes its job to the worker (include/Worker.hpp), the worker's thread runs it, and the io service
-- answers it. Clients, the worker and the service take steps in any order.
pub mod Once
use r.Base.{
  ℕ, zero, suc, ◌+◌, ◌≡◌, refl, sym, ◌∙◌, ap, arith, Bool, true, false, Bool-cases, inl, inr, List,
  [], ◌∷◌, ◌++◌, ◌==◌, length, leb, if◌then◌else◌,
}
use r.Device.{PropertyTrees}
use r.Device.Worker.{Worker, push_job, work}
use r.Device.Async as Async
use r.Device.Async.Answers.{one_if, answers_of, pending_of, jobs_of, run-known}
use r.Device.Service.{Service, Event, job}
use r.Device.Service.Handlers.{happens}
use r.Device.Service.Forget.{forget, pendings, told}
use r.Device.Service.Simulation.{forget-happens}

-- `taken` is the queue that the worker's thread has swapped out and goes through.
pub record Pipeline (T : Type 0) : Type 0 where
  pub worker : Worker
  pub taken : List ℕ
  pub service : Service T

-- What the service meets by itself is any event but a job. The worker's destructor sets its flag, and once
-- the thread has gone through what it has taken, empties the queue.
pub data Step : Type 0 where
  sends : ℕ → Step
  swaps : Step
  performs : ℕ → ℕ → Step
  serves : Event → Step
  interrupts clears : Step

abbrev pub is_job : Event → Bool
is_job (job command limit now) = true
is_job e = false

abbrev pub times : ℕ → List ℕ → ℕ
times c [] = 0
times c (d ∷ ds) = one_if (d == c) + times c ds

-- In the queue, taken by the worker, under way in the service, or answered.
abbrev pub held : {T : Type 0} → ℕ → Pipeline T → ℕ
held c p =
    times c p.worker.jobs
    + (times c p.taken
        + (answers_of c p.service.answers + pending_of c (pendings p.service.operations)))

module _ {T : Type 0} (trees : PropertyTrees T) where
  -- `asyncSendHttpCommand`, with its result.
  unfoldable pub async_send_http_command : ℕ → Pipeline T → Pipeline T × Bool
  unfolding push_job
  async_send_http_command command p =
      let (worker, accepted) = push_job command p.worker in (record p { worker = worker }, accepted)

  -- The thread swaps the queue out once it has gone through the last one. `ran` of the worker lists the
  -- jobs from then on; they are run one by one.
  abbrev pub swap_at : List ℕ → Pipeline T → Pipeline T
  unfolding work
  swap_at [] p =
      if p.worker.interrupt_flag
      then p
      else record p { worker = work p.worker; taken = p.worker.jobs }
  swap_at (command ∷ commands) p = p

  abbrev pub perform_at : List ℕ → ℕ → ℕ → Pipeline T → Pipeline T
  unfolding happens
  perform_at [] limit now p = p
  perform_at (command ∷ commands) limit now p = record p {
    taken = commands;
    service = happens trees (job command limit now) p.service;
  }

  -- `workingTask.wait(); jobs.clear();`
  abbrev pub clear_at : List ℕ → Pipeline T → Pipeline T
  clear_at [] p =
      if p.worker.interrupt_flag then record p { worker = record p.worker { jobs = [] } } else p
  clear_at (command ∷ commands) p = p

  unfoldable pub step : Step → Pipeline T → Pipeline T
  unfolding async_send_http_command swap_at perform_at happens
  step (sends command) p = (async_send_http_command command p).0
  step swaps p = swap_at p.taken p
  step (performs limit now) p = perform_at p.taken limit now p
  step interrupts p = record p { worker = record p.worker { interrupt_flag = true } }
  step clears p = clear_at p.taken p
  step (serves e) p = if is_job e then p else record p { service = happens trees e p.service }

  unfoldable pub steps : List Step → Pipeline T → Pipeline T
  unfolding step
  steps [] p = p
  steps (s ∷ ss) p = steps ss (step s p)

  -- How often the command has been sent and accepted along the way.
  abbrev pub accepted_of : ℕ → List Step → Pipeline T → ℕ
  accepted_of c [] p = 0
  accepted_of c (sends d ∷ ss) p =
      let later = accepted_of c ss (step (sends d) p) in
      if (async_send_http_command d p).1 then one_if (d == c) + later else later
  accepted_of c (swaps ∷ ss) p = accepted_of c ss (step swaps p)
  accepted_of c (performs limit now ∷ ss) p = accepted_of c ss (step (performs limit now) p)
  accepted_of c (serves e ∷ ss) p = accepted_of c ss (step (serves e) p)
  accepted_of c (interrupts ∷ ss) p = accepted_of c ss (step interrupts p)
  accepted_of c (clears ∷ ss) p = accepted_of c ss (step clears p)

  -- How often the command is in a queue that the worker's destructor empties.
  abbrev pub cleared_at : ℕ → List ℕ → Pipeline T → ℕ
  cleared_at c [] p = if p.worker.interrupt_flag then times c p.worker.jobs else 0
  cleared_at c (command ∷ commands) p = 0

  abbrev pub cleared_of : ℕ → List Step → Pipeline T → ℕ
  cleared_of c [] p = 0
  cleared_of c (clears ∷ ss) p = cleared_at c p.taken p + cleared_of c ss (step clears p)
  cleared_of c (interrupts ∷ ss) p = cleared_of c ss (step interrupts p)
  cleared_of c (sends d ∷ ss) p = cleared_of c ss (step (sends d) p)
  cleared_of c (swaps ∷ ss) p = cleared_of c ss (step swaps p)
  cleared_of c (performs limit now ∷ ss) p = cleared_of c ss (step (performs limit now) p)
  cleared_of c (serves e ∷ ss) p = cleared_of c ss (step (serves e) p)
