-- ===== src/Tests/Service.antt =====
-- The theorems about the io service of R2000 at concrete inputs.
use r.Base.{ℕ, ◌+◌, ◌≡◌, refl, false, true, List, [], ◌∷◌, ◌++◌, none, some}
use r.Device.{timeout, PropertyTrees, answer_of}
use r.Device.Http.{Exchange}
use r.Device.Async as Async
use r.Device.Async.{no_error, operation_aborted, connecting}
use r.Device.Service.{
  Service, Event, job, completes, returns, waits, cancels, destroys, construct, ended, leaving,
}
use r.Device.Service.Handlers.{happens, run}
use r.Device.Service.Forget.{forget}
use r.Device.Service.Simulation.{trace, forget-run}
use r.Device.Service.Shared.{answers-job}
use r.Device.Service.Asleep.{run-destroyed, run-unheard}
use r.Device.Pipeline.{
  Pipeline, Step, sends, swaps, performs, held, steps, accepted_of, cleared_of, interrupts, clears,
}
use r.Device.Pipeline.Once.{held-steps}

-- A stand-in for property trees: numbers.
abbrev trees : PropertyTrees ℕ
trees = record {
  empty_tree = 0;
  error_code = λ t. none;
  error_text = λ t. none;
  read_json = λ t. none;
}

abbrev exchange : Exchange
exchange = record {
  writes = true;
  status_bytes = none;
  header_bytes = none;
  chunks = [];
  ends_in_eof = true;
}

-- The thread starts and waits; a command is asked for, and its resolution completes.
abbrev events : List Event
events = returns ∷ waits ∷ job 5 1000 0 ∷ completes 0 no_error (7 ∷ []) exchange 10 ∷ []

abbrev constructed : Service ℕ
unfolding construct
constructed = construct

forget-run_example :
    forget (run trees events constructed)
    ≡ Async.run trees (trace trees events constructed) (forget constructed)
forget-run_example = forget-run trees events constructed

-- A command's connection is under way.
abbrev busy : Service ℕ
unfolding construct
busy = record construct {
  device_endpoints = some (7 ∷ []);
  operations =
      record { pending = connecting 5 (7 ∷ []); command_timeout = 1000; aborted = false } ∷ [];
  socket_expiry = 1000;
  socket_waits = 1;
}

answers-job_example :
    (happens trees
      (completes 0 operation_aborted [] exchange 12)
      (happens trees (job 6 1000 11) busy)).answers
    ≡ busy.answers ++ (5, answer_of trees timeout) ∷ []
unfolding busy construct
answers-job_example =
    answers-job trees busy 0 5 6 1000 1000 11 12 false (7 ∷ []) (7 ∷ []) [] exchange refl refl refl

run-destroyed_example :
    (¬ ((run trees (returns ∷ waits ∷ []) (happens trees destroys busy)).phase ≡ ended))
    × ((run trees (returns ∷ waits ∷ []) (happens trees destroys busy)).answers ≡ busy.answers)
unfolding busy construct
run-destroyed_example = run-destroyed trees busy (returns ∷ waits ∷ []) refl (refl, (refl, tt))

abbrev left : Service ℕ
unfolding construct
left = record construct { phase = leaving }

run-unheard_example :
    (forget (run trees (waits ∷ cancels ∷ []) (happens trees (job 5 1000 0) left))
      ≡ Async.async_http_get trees 5 (forget left))
    × ((run trees (waits ∷ cancels ∷ []) (happens trees (job 5 1000 0) left)).answers
        ≡ left.answers)
unfolding left construct
run-unheard_example = run-unheard trees left (waits ∷ cancels ∷ []) 5 1000 0 refl (refl, (refl, tt))

abbrev whole : Pipeline ℕ
unfolding construct
whole = record {
  worker = record { jobs = []; interrupt_flag = false; max_job = 1; ran = [] };
  taken = [];
  service = construct;
}

-- The third command finds the queue full, and the last one is still in it when the worker is destroyed.
abbrev all_steps : List Step
all_steps =
    sends 5
    ∷ sends 6
    ∷ sends 7
    ∷ swaps
    ∷ performs 1000 0
    ∷ performs 1000 0
    ∷ sends 8
    ∷ interrupts
    ∷ clears
    ∷ []

held-steps_example :
    held 8 (steps trees all_steps whole) + cleared_of trees 8 all_steps whole
    ≡ accepted_of trees 8 all_steps whole + held 8 whole
held-steps_example = held-steps trees 8 all_steps whole
