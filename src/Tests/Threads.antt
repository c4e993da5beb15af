-- ===== src/Tests/Threads.antt =====
-- The theorems about the threads of a link and the connection of a TCP link at concrete inputs.
use r.Base.{ℕ, ◌*◌, ◌≡◌, refl, arith, true, false, [], ◌∷◌, some}
use r.Scan.{Scan, back}
use r.Scan.Tcp.{TcpScanFactory}
use r.Device.{success, same_result}
use r.Device.Async.{no_error}
use r.Link.{initial_link, is_stalled, is_alive, set_output_scan, fire_scan_available}
use r.Link.Wait.{wait_for_next_scan}
use r.Link.Watchdog.{start_stream, watchdog_round}
use r.Link.Threads.{
  Threads, Run, here, own, receives, construct, answers, feeds, destroys, publishes, start_answered,
  feed, destroy,
}
use r.Link.Threads.Asked.{protocol, construct-protocol}
use r.Link.Threads.Mailbox.{wait_for_next_scan-back, wait_for_next_scan-latest}
use r.Link.Threads.Stalled.{is_stalled-Run}
use r.Tcp.Connection.{
  Session, Reach, resolves, attempts, make_link, on_endpoints_resolved,
  on_socket_connection_attempt_completed, asynchronous_resolve_endpoints,
  asynchronous_connect_socket,
}
use r.Tcp.Connection as Connection
use r.Tcp.Connection.Invariant.{IsSound, make_link-IsSound_always}
use r.Tcp.Connection.Dead.{is_alive-idle}
use r.Tests.{no_scan, first_header}

abbrev clock : ℕ → ℕ
clock n = 1000 * n

abbrev scan : Scan
scan = record {
  distances = 5 ∷ [];
  amplitudes = 0 ∷ [];
  headers = first_header ∷ [];
  timestamp = 9;
}

abbrev constructed : Threads TcpScanFactory
unfolding construct
constructed = construct no_scan true

abbrev answered : Threads TcpScanFactory
unfolding start_answered
answered = start_answered success true constructed

abbrev fed : Threads TcpScanFactory
unfolding feed
fed = feed (some success) answered

abbrev destroyed : Threads TcpScanFactory
unfolding destroy
destroyed = destroy fed

abbrev delivered : Threads TcpScanFactory
unfolding set_output_scan
delivered = record fed { link = set_output_scan scan (record fed.link { scan_factory = no_scan }) }

start_to_end : Run constructed destroyed []
unfolding construct constructed initial_link start_answered answered start_stream same_result feed
    fed watchdog_round destroy destroyed
start_to_end =
    own (own (own here (answers success true refl refl refl)) (feeds (some success) refl refl refl))
      (destroys refl)

construct-protocol_example : (n : ℕ) × (destroyed.asked ≡ protocol n destroyed.link.interrupt_flag)
unfolding construct constructed
construct-protocol_example = construct-protocol no_scan true destroyed [] start_to_end

one_scan : Run fed delivered (scan ∷ [])
unfolding delivered
one_scan = receives here (publishes no_scan scan refl)

wait_for_next_scan-back_example : wait_for_next_scan fed.link delivered.link ≡ back (scan ∷ [])
unfolding construct constructed initial_link start_answered answered start_stream same_result feed
    fed watchdog_round set_output_scan fire_scan_available delivered
wait_for_next_scan-back_example =
    wait_for_next_scan-back fed delivered (scan ∷ []) one_scan refl refl (omega arith) (omega arith)

-- The destructor runs while a caller waits, and no scan is put out.
wait_for_next_scan-latest_example :
    wait_for_next_scan fed.link destroyed.link ≡ some fed.link.last_scan_received
unfolding construct constructed initial_link start_answered answered start_stream same_result feed
    fed watchdog_round destroy destroyed
wait_for_next_scan-latest_example =
    wait_for_next_scan-latest fed destroyed [] (own here (destroys refl)) refl (omega arith)

abbrev stalled : Threads TcpScanFactory
stalled = record fed { link = record fed.link { is_data_link_stalled = true } }

is_stalled-Run_example :
    is_stalled (set_output_scan scan (record stalled.link { scan_factory = no_scan })) ≡ true
unfolding is_stalled
is_stalled-Run_example =
    is_stalled-Run stalled _ (scan ∷ []) (receives here (publishes no_scan scan refl)) refl

abbrev made : Session
unfolding make_link
made = make_link true

abbrev resolved : Session
unfolding on_endpoints_resolved
resolved = on_endpoints_resolved no_error (4 ∷ []) (record made { pending = [] })

abbrev connected : Session
unfolding on_socket_connection_attempt_completed
connected = on_socket_connection_attempt_completed no_error (record resolved { pending = [] })

up_to_the_read : Reach clock 9 made connected
unfolding make_link made asynchronous_resolve_endpoints on_endpoints_resolved resolved
    asynchronous_connect_socket on_socket_connection_attempt_completed connected
up_to_the_read =
    Connection.next (Connection.next Connection.here (resolves no_error (4 ∷ []) [] [] refl refl))
      (attempts no_error (4 ∷ []) [] [] refl refl)

make_link-IsSound_always_example : IsSound connected
unfolding make_link made
make_link-IsSound_always_example = make_link-IsSound_always clock 9 true connected up_to_the_read

-- The session once its read has failed.
abbrev idle : Session
idle = record connected {
  threads = record fed { link = record fed.link { is_connected = false } };
  pending = [];
}

is_alive-idle_example :
    (idle.pending ≡ [])
    × (idle.threads.link.scan_counter ≡ idle.threads.link.scan_counter)
    × (idle.threads.link.last_scan_received ≡ idle.threads.link.last_scan_received)
    × ((u : Session) × Reach clock 9 idle u × (is_alive u.threads.link ≡ true))
unfolding construct constructed initial_link start_answered answered start_stream same_result feed
    fed watchdog_round
is_alive-idle_example = is_alive-idle clock 9 idle idle refl Connection.here refl refl
