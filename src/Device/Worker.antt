-- ===== src/Device/Worker.antt =====
-- Worker (include/Worker.hpp): a queue of jobs that one thread empties. A job is a number, and `ran`
-- lists the jobs that have been invoked, in order.
pub mod Order
use r.Base.{
  ℕ, suc, ◌+◌, ◌≤◌, ◌<◌, ◌≡◌, refl, sym, ◌∙◌, ap, Bool, true, false, Bool-cases, inl, inr, List, [],
  ◌∷◌, ◌++◌, append_assoc, append-nil, length, length-append, leb, ltb, if◌then◌else◌, arith,
}

pub record Worker : Type 0 where
  pub jobs : List ℕ
  pub interrupt_flag : Bool
  pub max_job : ℕ
  pub ran : List ℕ

-- `pushJob`, with its result.
unfoldable pub push_job : ℕ → Worker → Worker × Bool
push_job job w =
    if leb (length w.jobs) w.max_job
    then (record w { jobs = w.jobs ++ job ∷ [] }, true)
    else (w, false)

-- One round of the thread's loop, once its wait is over: with the flag set it returns, otherwise it
-- takes the whole queue and invokes its jobs in order.
unfoldable pub work : Worker → Worker
work w = if w.interrupt_flag then w else record w { jobs = []; ran = w.ran ++ w.jobs }

-- The destructor: the flag is set, the thread is awaited, and the queue is emptied.
unfoldable pub interrupt : Worker → Worker
interrupt w = if w.interrupt_flag then w else record w { interrupt_flag = true; jobs = [] }

-- What may happen to a worker, in any order.
pub data Step : Type 0 where
  push : ℕ → Step
  round : Step
  stop : Step

unfoldable pub step : Step → Worker → Worker
unfolding push_job work interrupt
step (push job) w = (push_job job w).0
step round w = work w
step stop w = interrupt w

unfoldable pub run : List Step → Worker → Worker
unfolding step
run [] w = w
run (s ∷ ss) w = run ss (step s w)

-- The jobs that are accepted along the way, in order.
unfoldable pub accepted : List Step → Worker → List ℕ
unfolding step push_job
accepted [] w = []
accepted (push job ∷ ss) w =
    let later = accepted ss (step (push job) w) in if (push_job job w).1 then job ∷ later else later
accepted (round ∷ ss) w = accepted ss (step round w)
accepted (stop ∷ ss) w = accepted ss (step stop w)
