-- ===== src/Device/Service/Asleep.antt =====
-- The thread of the io service of R2000 (src/R2000.cpp) waits without a condition, so that a notification
-- that comes before the wait is lost. A wait that ends by itself is no event here.
use r.Base.{
  ℕ, ◌≡◌, refl, sym, ◌∙◌, ap, Bool, true, false, not, ◌&&◌, List, [], ◌∷◌, All, subst, Option, none,
  some,
}
use r.Device.{PropertyTrees}
use r.Device.Async.{ErrorCode, no_error, Pending}
use r.Device.Service.{
  Operation, Service, Phase, running, leaving, waiting, ended, is_running, Event, job, completes,
  resolver_deadline, socket_deadline, cancels, destroys, returns, waits, operation_at, serves,
  notify, notify_at, wait_at, schedule_next_endpoint_resolution_deadline,
  schedule_next_socket_connection_deadline, cancel_pending_commands, destroy, leave, wait,
}
use r.Device.Async as Async
use r.Device.Async.{Requests}
use r.Device.Service.Forget.{forget, told, told_completion}
use r.Device.Service.Simulation.{forget-happens}
use r.Device.Service.Handlers.{
  on_endpoint_resolution_attempt_completed, submit, complete_at, happens, run,
}

abbrev pub is_asleep : Phase → Bool
is_asleep running = false
is_asleep leaving = true
is_asleep waiting = true
is_asleep ended = false

-- Neither the worker nor the destructor notifies the thread.
abbrev pub is_quiet : Event → Bool
is_quiet (job command limit now) = false
is_quiet (completes i error queried x now) = true
is_quiet (resolver_deadline now) = true
is_quiet (socket_deadline now) = true
is_quiet cancels = true
is_quiet destroys = false
is_quiet returns = true
is_quiet waits = true

-- The thread serves nothing, and is on its way into a wait or in it.
pub data IsDeaf {T : Type 0} (s : Service T) : Type 0 where
  stopped_in_run : s.phase ≡ running → s.is_stopped ≡ true → IsDeaf s
  behind_run : is_asleep s.phase ≡ true → IsDeaf s

is_asleep-running : (p : Phase) → is_asleep p ≡ true → is_running p ≡ false
is_asleep-running running e = cc
is_asleep-running leaving e = refl
is_asleep-running waiting e = refl
is_asleep-running ended e = cc

-- The thread is in `run`, or has returned from it and does not wait yet.
abbrev pub is_before_wait : Phase → Bool
is_before_wait running = true
is_before_wait leaving = true
is_before_wait waiting = false
is_before_wait ended = false

module _ {T : Type 0} where
  IsDeaf-serves : (s : Service T) → IsDeaf s → serves s ≡ false
  IsDeaf-serves s (stopped_in_run r e) = rw (r, e)
  IsDeaf-serves s (behind_run e) = go s.phase e
    where
      go : (p : Phase) → is_asleep p ≡ true → (is_running p && not s.is_stopped) ≡ false
      go running e = cc
      go leaving e = refl
      go waiting e = refl
      go ended e = cc

  wait-IsDeaf : (s : Service T) → IsDeaf s → IsDeaf (wait s)
  unfolding wait
  wait-IsDeaf s d = go s.phase
    where
      go : (p : Phase) → IsDeaf (wait_at p s)
      go running = d
      go leaving = behind_run refl
      go waiting = d
      go ended = d

  leave-IsDeaf : (s : Service T) → IsDeaf s → IsDeaf (leave s)
  unfolding leave
  leave-IsDeaf s (stopped_in_run r e) = rw (r, e) (behind_run refl)
  leave-IsDeaf s (behind_run e) = rw (is_asleep-running s.phase e) (behind_run e)

  same_phase-IsDeaf :
      (s t : Service T) → t.phase ≡ s.phase → t.is_stopped ≡ s.is_stopped → IsDeaf s → IsDeaf t
  same_phase-IsDeaf s t p q (stopped_in_run r e) = stopped_in_run (p ∙ r) (q ∙ e)
  same_phase-IsDeaf s t p q (behind_run e) = behind_run (ap is_asleep p ∙ e)

  IsDeaf-not_ended : (s : Service T) → IsDeaf s → ¬ (s.phase ≡ ended)
  IsDeaf-not_ended s (stopped_in_run r e) f = go (sym r ∙ f)
    where
      go : ¬ (running ≡ ended)
      go e = cc
  IsDeaf-not_ended s (behind_run e) f = go (sym (ap is_asleep f) ∙ e)
    where
      go : ¬ (false ≡ true)
      go e = cc

  before_wait-IsDeaf :
      (s : Service T) → is_before_wait s.phase ≡ true → s.is_stopped ≡ true → IsDeaf (notify s)
  unfolding notify
  before_wait-IsDeaf s b e = go s.phase refl b
    where
      go : (p : Phase) → s.phase ≡ p → is_before_wait p ≡ true → IsDeaf (notify_at p s)
      go running f h = stopped_in_run f e
      go leaving f h = behind_run (ap is_asleep f)
      go waiting f h = cc
      go ended f h = cc

module _ {T : Type 0} (trees : PropertyTrees T) where
  run_nil : (q : Requests T) → Async.run trees [] q ≡ q
  unfolding Async.run
  run_nil q = refl

  happens-IsDeaf :
      (e : Event) (s : Service T) → is_quiet e ≡ true → IsDeaf s → IsDeaf (happens trees e s)
  unfolding happens cancel_pending_commands complete_at
  happens-IsDeaf (job command limit now) s q d = cc
  happens-IsDeaf (completes i error queried x now) s q d = go (operation_at i s.operations)
    where
      go : (o : Option Operation) → IsDeaf (complete_at trees o i error queried x now s)
      go none = d
      go (some o) = rw (IsDeaf-serves s d) d
  happens-IsDeaf (resolver_deadline now) s q d = rw (IsDeaf-serves s d) d
  happens-IsDeaf (socket_deadline now) s q d = rw (IsDeaf-serves s d) d
  happens-IsDeaf cancels s q d = same_phase-IsDeaf s _ refl refl d
  happens-IsDeaf destroys s q d = cc
  happens-IsDeaf returns s q d = leave-IsDeaf s d
  happens-IsDeaf waits s q d = wait-IsDeaf s d

  told-nothing : (e : Event) (s : Service T) → is_quiet e ≡ true → IsDeaf s → told e s ≡ []
  told-nothing (job command limit now) s q d = cc
  told-nothing (completes i error queried x now) s q d = go (operation_at i s.operations)
    where
      go : (o : Option Operation) → told_completion o i error queried x s ≡ []
      go none = refl
      go (some o) = rw (IsDeaf-serves s d) refl
  told-nothing (resolver_deadline now) s q d = refl
  told-nothing (socket_deadline now) s q d = refl
  told-nothing cancels s q d = refl
  told-nothing destroys s q d = cc
  told-nothing returns s q d = refl
  told-nothing waits s q d = refl

  run-IsDeaf :
      (es : List Event) (s : Service T)
      → All (λ e. is_quiet e ≡ true) es
      → IsDeaf s
      → IsDeaf (run trees es s) × (forget (run trees es s) ≡ forget s)
  unfolding run
  run-IsDeaf [] s quiet d = (d, refl)
  run-IsDeaf (e ∷ es) s (q, quiet) d =
      let (deaf, same) = run-IsDeaf es (happens trees e s) quiet (happens-IsDeaf e s q d) in
      let first : forget (happens trees e s) ≡ forget s =
        forget-happens trees e s
        ∙ ap (λ fs. Async.run trees fs (forget s)) (told-nothing e s q d)
        ∙ run_nil (forget s) in
      (deaf, same ∙ first)

  submit-phase :
      (o : Option (List ℕ)) (command limit now : ℕ) (s : Service T)
      → (submit trees o command limit now s).phase ≡ s.phase
  unfolding submit on_endpoint_resolution_attempt_completed
      schedule_next_endpoint_resolution_deadline schedule_next_socket_connection_deadline
  submit-phase none command limit now s = refl
  submit-phase (some endpoints) command limit now s = refl

  leaving-IsDeaf : (s : Service T) → s.phase ≡ leaving → IsDeaf (notify s)
  unfolding notify
  leaving-IsDeaf s e = subst (λ p. IsDeaf (notify_at p s)) (sym e) (behind_run (ap is_asleep e))

  job-answers :
      (o : Option (List ℕ)) (command : ℕ) (q : Requests T)
      → (Async.submit trees o command q).answers ≡ q.answers
  unfolding Async.submit Async.on_endpoint_resolution_attempt_completed
  job-answers none command q = refl
  job-answers (some endpoints) command q = refl

  -- The destructor runs while the thread has not come to its wait, as while commands are under way. As
  -- long as no job notifies the thread, it never ends, so that the destructor waits for ever, and
  -- no callback is invoked any more.
  pub run-destroyed :
      (s : Service T) (es : List Event)
      → is_before_wait s.phase ≡ true
      → All (λ e. is_quiet e ≡ true) es
      → (¬ ((run trees es (happens trees destroys s)).phase ≡ ended))
        × ((run trees es (happens trees destroys s)).answers ≡ s.answers)
  unfolding happens destroy
  run-destroyed s es before quiet =
      let (deaf, same) =
        run-IsDeaf es (happens trees destroys s) quiet (before_wait-IsDeaf _ before refl) in
      let abstractly : forget (run trees es (happens trees destroys s)) ≡ forget s =
        same ∙ forget-happens trees destroys s ∙ run_nil (forget s) in
      (IsDeaf-not_ended _ deaf, ap (λ (q : Requests T). q.answers) abstractly)

  -- The job of a command runs when the thread has returned from `run` and does not wait yet. As long as
  -- no further job and no destructor notifies the thread, the command's operation stays under way, and
  -- no callback is invoked, whatever the network and the clock do.
  pub run-unheard :
      (s : Service T) (es : List Event) (command limit now : ℕ)
      → s.phase ≡ leaving
      → All (λ e. is_quiet e ≡ true) es
      → (forget (run trees es (happens trees (job command limit now) s))
          ≡ Async.async_http_get trees command (forget s))
        × ((run trees es (happens trees (job command limit now) s)).answers ≡ s.answers)
  unfolding happens Async.run Async.happens Async.async_http_get
  run-unheard s es command limit now left quiet =
      let begun = submit trees s.device_endpoints command limit now s in
      let (deaf, same) =
        run-IsDeaf es (notify begun) quiet
          (leaving-IsDeaf begun (submit-phase s.device_endpoints command limit now s ∙ left)) in
      let abstractly = same ∙ forget-happens trees (job command limit now) s in
      (
        abstractly,
        ap (λ (q : Requests T). q.answers) abstractly
            ∙ job-answers s.device_endpoints command (forget s),
      )
