-- ===== src/Tcp/Connection.antt =====
-- The connection of a TCPLink (src/DataLink/TCPLink.cpp, include/DataLink/TCPLink.hpp): the resolution of
-- the device's endpoints, the connection of the socket, and the reads, each an operation that completes
-- some time with a result the network chooses, beside the threads of the DataLink.
pub mod Sizes
pub mod Invariant
pub mod Dead
use r.Base.{
  ℕ, ◌≡◌, Bool, true, false, List, [], ◌∷◌, ◌++◌, Option, none, some, Outcome, done, threw,
  Exception,
}
use r.Wire.{Buffer}
use r.Scan.Tcp.{TcpScanFactory}
use r.Device.Async.{ErrorCode, no_error, operation_aborted, other_error}
use r.Link.{DataLink}
use r.Link.Threads.{Threads, OwnStep, construct}
use r.Tcp.{
  bytes, left_by_exception, TcpLink, Reception, on_bytes_received, default_reception_buffer_size,
}

pub data Operation : Type 0 where
  resolving : Operation
  connecting : List ℕ → Operation
  reading : ℕ → Operation

-- `pending` lists what the io service has been asked for. Endpoints are numbers.
pub record Session : Type 0 where
  pub threads : Threads TcpScanFactory
  pub reception_size : ℕ
  pub extraction_buffer : Buffer
  pub end_points : List ℕ
  pub pending : List Operation
  pub interrupt_socket_async_ops : Bool

abbrev pub ask : Operation → Session → Session
ask operation s = record s { pending = s.pending ++ operation ∷ [] }

abbrev pub set_connected : Bool → Session → Session
set_connected b s = record s {
  threads = record s.threads { link = record s.threads.link { is_connected = b } };
}

unfoldable pub asynchronous_resolve_endpoints : Session → Session
asynchronous_resolve_endpoints s = ask resolving s

-- The socket is shut down and closed before.
unfoldable pub asynchronous_connect_socket : List ℕ → Session → Session
asynchronous_connect_socket end_points s = ask (connecting end_points) s

-- The constructor, with whether the request to start the stream has been accepted.
unfoldable pub make_link : Bool → Session
unfolding asynchronous_resolve_endpoints
make_link accepted = asynchronous_resolve_endpoints (record {
  threads = construct (record { distances = []; amplitudes = []; headers = [] }) accepted;
  reception_size = default_reception_buffer_size;
  extraction_buffer = [];
  end_points = [];
  pending = [];
  interrupt_socket_async_ops = false;
})

-- The handler of the resolver. After an error that is no cancellation it waits for 10 seconds, or for the
-- destructor, and starts again.
unfoldable pub on_endpoints_resolved : ErrorCode → List ℕ → Session → Session
unfolding asynchronous_resolve_endpoints asynchronous_connect_socket
on_endpoints_resolved no_error queried s =
    asynchronous_connect_socket queried (record s { end_points = queried })
on_endpoints_resolved operation_aborted queried s = s
on_endpoints_resolved other_error queried s = asynchronous_resolve_endpoints s

-- The second test is of an error alone: its branch is taken with one. It waits for 20 seconds.
unfoldable pub on_socket_connection_attempt_completed : ErrorCode → Session → Session
unfolding asynchronous_resolve_endpoints
on_socket_connection_attempt_completed no_error s =
    ask (reading default_reception_buffer_size) (set_connected true s)
on_socket_connection_attempt_completed operation_aborted s = s
on_socket_connection_attempt_completed other_error s =
    asynchronous_resolve_endpoints (set_connected false s)

abbrev pub tcp_link : Session → TcpLink
tcp_link s = record {
  link = s.threads.link;
  reception_size = s.reception_size;
  extraction_buffer = s.extraction_buffer;
}

-- What `onBytesReceived` leaves, with the number of bytes of the next read.
unfoldable pub on_transfer_completed : TcpLink → Option ℕ → Session → Session
on_transfer_completed t none s = record s {
  threads = record s.threads { link = t.link };
  reception_size = t.reception_size;
  extraction_buffer = t.extraction_buffer;
}
on_transfer_completed t (some request) s = ask (reading request) (record s {
  threads = record s.threads { link = t.link };
  reception_size = t.reception_size;
  extraction_buffer = t.extraction_buffer;
})

-- An exception of the handler ends the task of the io service: nothing that is pending completes.
unfoldable pub on_exception : TcpLink → Session → Session
on_exception t s = record s {
  threads = record s.threads { link = t.link };
  extraction_buffer = t.extraction_buffer;
  pending = [];
}

-- The destructor of the TCPLink: what is asked of the resolver and of the socket is given up with them.
unfoldable pub close : Session → Session
close s = record s { interrupt_socket_async_ops = true; pending = [] }

-- A read out of range is no step: the behaviour of the program is undefined from there on.
pub data Step (clock : ℕ → ℕ) (fuel : ℕ) (s t : Session) : Type 0 where
  resolves :
      (error : ErrorCode) (queried : List ℕ) (before after : List Operation)
      → s.pending ≡ before ++ resolving ∷ after
      → t ≡ on_endpoints_resolved error queried (record s { pending = before ++ after })
      → Step clock fuel s t
  attempts :
      (error : ErrorCode) (end_points : List ℕ) (before after : List Operation)
      → s.pending ≡ before ++ connecting end_points ∷ after
      → t ≡ on_socket_connection_attempt_completed error (record s { pending = before ++ after })
      → Step clock fuel s t
  transfers :
      (size : ℕ) (reception : Reception) (link : TcpLink) (request : Option ℕ)
      (before after : List Operation)
      → s.pending ≡ before ++ reading size ∷ after
      → on_bytes_received clock fuel reception (tcp_link s) ≡ some (done (link, request))
      → t ≡ on_transfer_completed link request (record s { pending = before ++ after })
      → Step clock fuel s t
  dies :
      (size : ℕ) (received : List ℕ) (e : Exception) (before after : List Operation)
      → s.pending ≡ before ++ reading size ∷ after
      → on_bytes_received clock fuel (bytes received) (tcp_link s) ≡ some (threw e)
      → t ≡ on_exception (left_by_exception clock fuel received (tcp_link s)) s
      → Step clock fuel s t
  closes : t ≡ close s → Step clock fuel s t
  thread :
      (threads : Threads TcpScanFactory)
      → OwnStep s.threads threads
      → t ≡ record s { threads = threads }
      → Step clock fuel s t

pub data Reach (clock : ℕ → ℕ) (fuel : ℕ) (s : Session) : Session → Type 0 where
  here : Reach clock fuel s s
  next : {t u : Session} → Reach clock fuel s t → Step clock fuel t u → Reach clock fuel s u
