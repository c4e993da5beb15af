-- ===== src/Tcp/Connection/Invariant.antt =====
-- What holds of a TCPLink (src/DataLink/TCPLink.cpp) from its constructor on, whatever the network does
-- and however the threads of the link take turns.
use r.Base.{
  ℕ, ◌≤◌, ◌≡◌, refl, ap, subst, arith, Bool, true, false, List, [], ◌∷◌, ◌++◌, length,
  length-append, All, Option, none, some,
}
use r.Scan.Tcp.{tcp_factory, get_headers}
use r.Device.Async.{ErrorCode, no_error, operation_aborted, other_error}
use r.Link.{initial_link}
use r.Link.Unmixed.{IsUnmixed, OwnStep-IsUnmixed, same_link-IsUnmixed}
use r.Link.Threads.{construct}
use r.Tcp.{TcpLink}
use r.Tcp.Sizes.{IsBufferSize}
use r.Tcp.Unmixed.{
  LeavesLink, IsUnmixedLink, on_bytes_received-IsUnmixed, left_by_exception-IsUnmixed,
}
use r.Tcp.Connection.Sizes.{FitsRead, LeavesSizes, on_bytes_received-LeavesSizes}
use r.Tcp.Connection.{
  Operation, resolving, connecting, reading, Session, Step, resolves, attempts, transfers, dies,
  closes, thread, Reach, here, next, close, on_exception, tcp_link, on_endpoints_resolved,
  on_socket_connection_attempt_completed, on_transfer_completed, asynchronous_resolve_endpoints,
  asynchronous_connect_socket, make_link,
}

-- A pending read fits the reception buffer.
abbrev pub FitsBuffer : ℕ → Operation → Type 0
FitsBuffer size resolving = Unit {0}
FitsBuffer size (connecting end_points) = Unit {0}
FitsBuffer size (reading request) = (1 ≤ request) × (request ≤ size)

pub record IsSound (s : Session) : Type 0 where
  pub one_operation : length s.pending ≤ 1
  pub reads_fit : All (FitsBuffer s.reception_size) s.pending
  pub bounded : IsBufferSize s.reception_size
  pub unmixed : IsUnmixed tcp_factory s.threads.link

-- Nothing else is pending beside an operation that completes.
nothing_else :
    (ps before after : List Operation) (p : Operation)
    → length ps ≤ 1
    → ps ≡ before ++ p ∷ after
    → before ++ after ≡ []
nothing_else ps [] [] p one e = refl
nothing_else ps [] (a ∷ as') p one e = absurd (omega (arith, ap length e))
nothing_else ps (b ∷ bs) after p one e =
    absurd (omega (arith, ap length e, length-append bs (p ∷ after)))

abbrev completed : Session → Session
completed s = record s { pending = [] }

completed_lem :
    (s : Session) (before after : List Operation) (p : Operation)
    → IsSound s
    → s.pending ≡ before ++ p ∷ after
    → record s { pending = before ++ after } ≡ completed s
completed_lem s before after p sound e =
    ap (λ (ps : List Operation). record s { pending = ps })
      (nothing_else s.pending before after p sound.one_operation e)

resolved-IsSound :
    (error : ErrorCode) (queried : List ℕ) (s : Session)
    → IsSound s
    → IsSound (on_endpoints_resolved error queried (completed s))
unfolding on_endpoints_resolved asynchronous_resolve_endpoints asynchronous_connect_socket
resolved-IsSound no_error queried s sound = record {
  one_operation = omega arith;
  reads_fit = (tt, tt);
  bounded = sound.bounded;
  unmixed = sound.unmixed;
}
resolved-IsSound operation_aborted queried s sound = record {
  one_operation = omega arith;
  reads_fit = tt;
  bounded = sound.bounded;
  unmixed = sound.unmixed;
}
resolved-IsSound other_error queried s sound = record {
  one_operation = omega arith;
  reads_fit = (tt, tt);
  bounded = sound.bounded;
  unmixed = sound.unmixed;
}

attempted-IsSound :
    (error : ErrorCode) (s : Session)
    → IsSound s
    → IsSound (on_socket_connection_attempt_completed error (completed s))
unfolding on_socket_connection_attempt_completed asynchronous_resolve_endpoints
attempted-IsSound no_error s sound = record {
  one_operation = omega arith;
  reads_fit = ((omega arith, omega (arith, sound.bounded.0)), tt);
  bounded = sound.bounded;
  unmixed = same_link-IsUnmixed tcp_factory s.threads.link _ refl refl refl sound.unmixed;
}
attempted-IsSound operation_aborted s sound = record {
  one_operation = omega arith;
  reads_fit = tt;
  bounded = sound.bounded;
  unmixed = sound.unmixed;
}
attempted-IsSound other_error s sound = record {
  one_operation = omega arith;
  reads_fit = (tt, tt);
  bounded = sound.bounded;
  unmixed = same_link-IsUnmixed tcp_factory s.threads.link _ refl refl refl sound.unmixed;
}

transferred-IsSound :
    (t : TcpLink) (request : Option ℕ) (s : Session)
    → IsBufferSize t.reception_size × FitsRead t.reception_size request
    → IsUnmixedLink t
    → IsSound (on_transfer_completed t request (completed s))
unfolding on_transfer_completed
transferred-IsSound t none s (bounded, fits) u = record {
  one_operation = omega arith;
  reads_fit = tt;
  bounded = bounded;
  unmixed = u;
}
transferred-IsSound t (some request) s (bounded, fits) u = record {
  one_operation = omega arith;
  reads_fit = (fits, tt);
  bounded = bounded;
  unmixed = u;
}

module _ (clock : ℕ → ℕ) (fuel : ℕ) where
  Step-IsSound : (s t : Session) → Step clock fuel s t → IsSound s → IsSound t
  unfolding close on_exception
  Step-IsSound s t (resolves error queried before after p e) sound =
      rw (e, completed_lem s before after resolving sound p)
        (resolved-IsSound error queried s sound)
  Step-IsSound s t (attempts error end_points before after p e) sound =
      rw (e, completed_lem s before after (connecting end_points) sound p)
        (attempted-IsSound error s sound)
  Step-IsSound s t (transfers size reception link request before after p o e) sound =
      rw (e, completed_lem s before after (reading size) sound p)
        (transferred-IsSound link request s
          (subst LeavesSizes o
            (on_bytes_received-LeavesSizes clock fuel reception (tcp_link s) sound.bounded))
          (subst (LeavesLink IsUnmixedLink) o
            (on_bytes_received-IsUnmixed clock fuel reception (tcp_link s) sound.unmixed)))
  Step-IsSound s t (dies size received x before after p o e) sound = rw e (record {
    one_operation = omega arith;
    reads_fit = tt;
    bounded = sound.bounded;
    unmixed = left_by_exception-IsUnmixed clock fuel received (tcp_link s) sound.unmixed;
  })
  Step-IsSound s t (closes e) sound = rw e (record {
    one_operation = omega arith;
    reads_fit = tt;
    bounded = sound.bounded;
    unmixed = sound.unmixed;
  })
  Step-IsSound s t (thread threads own e) sound = rw e (record {
    one_operation = sound.one_operation;
    reads_fit = sound.reads_fit;
    bounded = sound.bounded;
    unmixed = OwnStep-IsUnmixed tcp_factory s.threads threads own sound.unmixed;
  })

  make_link-IsSound : (accepted : Bool) → IsSound (make_link accepted)
  unfolding make_link asynchronous_resolve_endpoints construct get_headers initial_link
  make_link-IsSound true = record {
    one_operation = omega arith;
    reads_fit = (tt, tt);
    bounded = (omega arith, omega arith);
    unmixed = record { assembling = tt; last = (0, tt); told = tt };
  }
  make_link-IsSound false = record {
    one_operation = omega arith;
    reads_fit = (tt, tt);
    bounded = (omega arith, omega arith);
    unmixed = record { assembling = tt; last = (0, tt); told = tt };
  }

  -- From its constructor on, whatever the resolver and the socket answer, whatever bytes arrive, also
  -- where the handler throws, and however its threads take turns, as long as no read leaves its buffer, a
  -- TCP link has at most one operation pending; each read that is pending is for one byte at least and for no more than the reception buffer holds; that buffer has
  -- between 4096 and 32768 bytes; and the packets being assembled, those of the last scan and those of
  -- each scan that a callback was told of have one scan number each.
  pub make_link-IsSound_always :
      (accepted : Bool) (s : Session) → Reach clock fuel (make_link accepted) s → IsSound s
  make_link-IsSound_always accepted s here = make_link-IsSound accepted
  make_link-IsSound_always accepted s (next {t} before step) =
      Step-IsSound t s step (make_link-IsSound_always accepted t before)
