-- ===== src/Device/Async/Answers.antt =====
-- Every asynchronous command is answered once (src/R2000.cpp), and what a failed resolution leaves.
use r.Base.{
  ℕ, zero, suc, ◌+◌, ◌≡◌, refl, sym, Bool, true, false, inl, inr, List, [], ◌∷◌, ◌++◌, Option, none,
  some, ◌==◌, arith, All, All-append, ◌⊎◌, subst,
}
use r.Device.{timeout, failed, DeviceAnswer, PropertyTrees, answer_of}
use r.Device.Http.{Exchange}
use r.Device.Async.{
  ErrorCode, no_error, operation_aborted, other_error, Pending, resolving, connecting, Requests,
  Event, job, completes, at_index, without_index, invoke, on_endpoint_resolution_attempt_completed,
  on_socket_connection_attempt_completed, submit, async_http_get, complete, happens, run,
}

-- How often a command stands in a list.
abbrev pub one_if : Bool → ℕ
one_if true = 1
one_if false = 0

abbrev pub command_of : Pending → ℕ
command_of (resolving command) = command
command_of (connecting command endpoints) = command

abbrev pub pending_of : ℕ → List Pending → ℕ
pending_of c [] = 0
pending_of c (p ∷ ps) = one_if (command_of p == c) + pending_of c ps

abbrev pub answers_of : {T : Type 0} → ℕ → List (ℕ × DeviceAnswer T) → ℕ
answers_of c [] = 0
answers_of c ((d, answer) ∷ rest) = one_if (d == c) + answers_of c rest

-- How often a command's job is run.
abbrev pub jobs_of : ℕ → List Event → ℕ
jobs_of c [] = 0
jobs_of c (job d ∷ es) = one_if (d == c) + jobs_of c es
jobs_of c (completes i error queried x ∷ es) = jobs_of c es

abbrev at_most_one : ℕ → Option Pending → ℕ
at_most_one c none = 0
at_most_one c (some p) = one_if (command_of p == c)

pending_of-append :
    (c : ℕ) (ps qs : List Pending) → pending_of c (ps ++ qs) ≡ pending_of c ps + pending_of c qs
pending_of-append c [] qs = omega arith
pending_of-append c (p ∷ ps) qs = rw (pending_of-append c ps qs) (omega arith)

answers_of-append :
    {T : Type 0} (c : ℕ) (xs ys : List (ℕ × DeviceAnswer T))
    → answers_of c (xs ++ ys) ≡ answers_of c xs + answers_of c ys
answers_of-append c [] ys = omega arith
answers_of-append c (x ∷ xs) ys = rw (answers_of-append c xs ys) (omega arith)

pending_of-without_index :
    (c i : ℕ) (ps : List Pending)
    → pending_of c ps ≡ at_most_one c (at_index i ps) + pending_of c (without_index i ps)
unfolding at_index without_index
pending_of-without_index c i [] = omega arith
pending_of-without_index c zero (p ∷ ps) = refl
pending_of-without_index c (suc i) (p ∷ ps) = let e = pending_of-without_index c i ps in omega arith

module _ {T : Type 0} (trees : PropertyTrees T) (c : ℕ) where
  -- What is answered or under way.
  abbrev known : Requests T → ℕ
  known q = answers_of c q.answers + pending_of c q.pending

  known-invoke :
      (d : ℕ) (answer : DeviceAnswer T) (q : Requests T)
      → known (invoke trees d answer q) ≡ one_if (d == c) + known q
  unfolding invoke
  known-invoke d answer q = let e = answers_of-append c q.answers ((d, answer) ∷ []) in omega arith

  known-resolution :
      (error : ErrorCode) (d : ℕ) (endpoints : List ℕ) (q : Requests T)
      → known (on_endpoint_resolution_attempt_completed trees error d endpoints q)
        ≡ one_if (d == c) + known q
  unfolding on_endpoint_resolution_attempt_completed
  known-resolution no_error d endpoints q =
      let e = pending_of-append c q.pending (connecting d endpoints ∷ []) in omega arith
  known-resolution operation_aborted d endpoints q = known-invoke d (answer_of trees timeout) q
  known-resolution other_error d endpoints q = known-invoke d (answer_of trees failed) q

  known-connection :
      (error : ErrorCode) (d : ℕ) (x : Exchange) (q : Requests T)
      → known (on_socket_connection_attempt_completed trees error d x q) ≡ one_if (d == c) + known q
  unfolding on_socket_connection_attempt_completed
  known-connection no_error d x q = known-invoke d _ q
  known-connection operation_aborted d x q = known-invoke d (answer_of trees timeout) q
  known-connection other_error d x q = known-invoke d (answer_of trees failed) q

  known-submit :
      (o : Option (List ℕ)) (d : ℕ) (q : Requests T)
      → known (submit trees o d q) ≡ one_if (d == c) + known q
  unfolding submit
  known-submit none d q = let e = pending_of-append c q.pending (resolving d ∷ []) in omega arith
  known-submit (some endpoints) d q = known-resolution no_error d endpoints q

  known-complete :
      (o : Option Pending) (error : ErrorCode) (queried : List ℕ) (x : Exchange) (q : Requests T)
      → known (complete trees o error queried x q) ≡ at_most_one c o + known q
  unfolding complete
  known-complete none error queried x q = omega arith
  known-complete (some (resolving d)) error queried x q =
      known-resolution error d queried (record q { device_endpoints = some queried })
  known-complete (some (connecting d endpoints)) error queried x q = known-connection error d x q

  -- Whatever happens, in whatever order operations complete, the answers that a command has received and
  -- its operations under way are together as many as before, and one for each of its jobs that was run:
  -- no callback is lost or invoked twice, on any path of the handlers.
  pub run-known :
      (es : List Event) (q : Requests T)
      → answers_of c (run trees es q).answers + pending_of c (run trees es q).pending
        ≡ jobs_of c es + (answers_of c q.answers + pending_of c q.pending)
  unfolding run happens async_http_get
  run-known [] q = omega arith
  run-known (job d ∷ es) q =
      let e = run-known es (async_http_get trees d q) in
      let k = known-submit q.device_endpoints d q in omega arith
  run-known (completes i error queried x ∷ es) q =
      let q' : Requests T = record q { pending = without_index i q.pending } in
      let e = run-known es (complete trees (at_index i q.pending) error queried x q') in
      let k = known-complete (at_index i q.pending) error queried x q' in
      let w = pending_of-without_index c i q.pending in omega arith

abbrev pub is_connecting : Pending → Bool
is_connecting (resolving command) = false
is_connecting (connecting command endpoints) = true

-- Nothing is asked of the resolver, and these endpoints are the ones that are kept.
abbrev pub IsSettled : {T : Type 0} → List ℕ → Requests T → Type 0
IsSettled endpoints q =
    (q.device_endpoints ≡ some endpoints) × All (λ p. is_connecting p ≡ true) q.pending

All-without_index :
    (i : ℕ) (ps : List Pending)
    → All (λ p. is_connecting p ≡ true) ps
    → All (λ p. is_connecting p ≡ true) (without_index i ps)
unfolding without_index
All-without_index i [] h = h
All-without_index zero (p ∷ ps) (h, hs) = hs
All-without_index (suc i) (p ∷ ps) (h, hs) = (h, All-without_index i ps hs)

settled_at_index :
    (i : ℕ) (ps : List Pending)
    → All (λ p. is_connecting p ≡ true) ps
    → (at_index i ps ≡ none)
      ⊎ ((c : ℕ) × ((es : List ℕ) × (at_index i ps ≡ some (connecting c es))))
unfolding at_index
settled_at_index i [] h = inl refl
settled_at_index zero (resolving c ∷ ps) (h, hs) = absurd cc
settled_at_index zero (connecting c es ∷ ps) (h, hs) = inr (c, (es, refl))
settled_at_index (suc i) (p ∷ ps) (h, hs) = settled_at_index i ps hs

module _ {T : Type 0} (trees : PropertyTrees T) (endpoints : List ℕ) where
  IsSettled-connection :
      (error : ErrorCode) (d : ℕ) (x : Exchange) (q : Requests T)
      → IsSettled endpoints q
      → IsSettled endpoints (on_socket_connection_attempt_completed trees error d x q)
  unfolding on_socket_connection_attempt_completed invoke
  IsSettled-connection no_error d x q h = h
  IsSettled-connection operation_aborted d x q h = h
  IsSettled-connection other_error d x q h = h

  IsSettled-job :
      (d : ℕ) (q : Requests T)
      → IsSettled endpoints q
      → IsSettled endpoints (async_http_get trees d q)
  unfolding async_http_get submit on_endpoint_resolution_attempt_completed
  IsSettled-job d q (kept, quiet) =
      subst (λ o. IsSettled endpoints (submit trees o d q)) (sym kept)
        (
          kept,
          All-append (λ p. is_connecting p ≡ true) q.pending (connecting d endpoints ∷ []) quiet
              (refl, tt),
        )

  IsSettled-complete :
      (i : ℕ) (error : ErrorCode) (queried : List ℕ) (x : Exchange) (q : Requests T)
      → IsSettled endpoints q
      → IsSettled endpoints (happens trees (completes i error queried x) q)
  unfolding happens complete
  IsSettled-complete i error queried x q (kept, quiet) =
      let q' : Requests T = record q { pending = without_index i q.pending } in
      let h : IsSettled endpoints q' = (kept, All-without_index i q.pending quiet) in
      elim (settled_at_index i q.pending quiet) [
        | inl e ↦ subst (λ o. IsSettled endpoints (complete trees o error queried x q')) (sym e) h
        | inr (c, (es, e)) ↦
            subst (λ o. IsSettled endpoints (complete trees o error queried x q')) (sym e)
              (IsSettled-connection error c x q' h)
      ]

  -- Once the handler of the resolver has stored its endpoints and nothing more is asked of the resolver,
  -- no command ever asks it again, whatever happens: the endpoints stay as they are, even those of a
  -- resolution that failed.
  pub run-IsSettled :
      (es : List Event) (q : Requests T)
      → IsSettled endpoints q
      → IsSettled endpoints (run trees es q)
  unfolding run happens
  run-IsSettled [] q h = h
  run-IsSettled (job d ∷ es) q h = run-IsSettled es (async_http_get trees d q) (IsSettled-job d q h)
  run-IsSettled (completes i error queried x ∷ es) q h =
      run-IsSettled es (happens trees (completes i error queried x) q)
        (IsSettled-complete i error queried x q h)
