-- ===== src/Link/Threads/Mailbox.antt =====
-- `waitForNextScan` of include/DataLink/DataLink.hpp as a mailbox, over the threads of a link: what a
-- waiting caller gets is told by the scans that were put out while it waited.
use r.Base.{
  ◌+◌, ◌%◌, ◌^◌, ◌<◌, ◌≡◌, refl, sym, ap, ◌∙◌, arith, true, false, List, [], ◌∷◌, ◌++◌, append-nil,
  length, length-append, Option, none, some, if◌then◌else◌, Bool,
}
use r.Scan.{Scan, back}
use r.Scan.Back.{back-append}
use r.Device.{same_result}
use r.Link.{
  set_output_scan, fire_scan_available, fire_connection_lost, add_on_connection_lost_callback,
  add_on_new_scan_callback,
}
use r.Link.Wait.{
  wait_for_next_scan, not_connected, interrupted, timed_out, scan_counted,
  wait_for_next_scan-WaitEnds,
}
use native.Mathlib.Decide.{dec_lt}
use r.Link.Watchdog.{watchdog_round, stall_monitoring_round, start_stream}
use r.Link.Threads.{
  Threads, OwnStep, LinkStep, Run, here, own, receives, answers, feeds, monitors, registers_lost,
  registers_new, destroys, assembles, publishes, connects, loses, start_answered, feed, monitor,
  destroy,
}

-- The last of the scans, or what was there before them.
abbrev pub latest : Scan → Option Scan → Scan
latest before none = before
latest before (some scan) = scan

back-some : (scans : List Scan) → 0 < length scans → (scan : Scan) × (back scans ≡ some scan)
back-some [] h = absurd (omega arith)
back-some (x ∷ []) h = (x, refl)
back-some (x ∷ y ∷ ys) h = back-some (y ∷ ys) (omega arith)

back-none : (scans : List Scan) → length scans ≡ 0 → back scans ≡ none
back-none [] h = refl
back-none (x ∷ xs) h = absurd (omega (arith, h))

module _ {S : Type 0} where
  -- Since `s`, the scans have been put out one after the other.
  record Delivered (s t : Threads S) (scans : List Scan) : Type 0 where
    counted : t.link.scan_counter ≡ (s.link.scan_counter + length scans) % 2 ^ 64
    newest : t.link.last_scan_received ≡ latest s.link.last_scan_received (back scans)

  pub OwnStep-delivers :
      (s t : Threads S)
      → OwnStep s t
      → (t.link.scan_counter ≡ s.link.scan_counter)
        × (t.link.last_scan_received ≡ s.link.last_scan_received)
  unfolding start_answered feed monitor destroy watchdog_round stall_monitoring_round start_stream
      add_on_connection_lost_callback add_on_new_scan_callback fire_connection_lost same_result
  OwnStep-delivers s t (answers result w a i e) = (ground arith, ground arith)
  OwnStep-delivers s t (feeds result w i e) = (ground arith, ground arith)
  OwnStep-delivers s t (monitors now w i e) = (ground arith, ground arith)
  OwnStep-delivers s t (registers_lost c e) = (ground arith, ground arith)
  OwnStep-delivers s t (registers_new c e) = (ground arith, ground arith)
  OwnStep-delivers s t (destroys e) = (ground arith, ground arith)

  same-Delivered :
      (s t u : Threads S) (scans : List Scan)
      → Delivered s t scans
      → u.link.scan_counter ≡ t.link.scan_counter
      → u.link.last_scan_received ≡ t.link.last_scan_received
      → Delivered s u (scans ++ [])
  same-Delivered s t u scans d c l =
      rw (append-nil scans) (record { counted = c ∙ d.counted; newest = l ∙ d.newest })

  LinkStep-Delivered :
      (s t u : Threads S) (scans new : List Scan)
      → LinkStep t u new
      → Delivered s t scans
      → Delivered s u (scans ++ new)
  unfolding set_output_scan fire_scan_available fire_connection_lost
  LinkStep-Delivered s t u scans _ (assembles f e) d =
      same-Delivered s t u scans d (ground arith) (ground arith)
  LinkStep-Delivered s t u scans _ (connects b e) d =
      same-Delivered s t u scans d (ground arith) (ground arith)
  LinkStep-Delivered s t u scans _ (loses e) d =
      same-Delivered s t u scans d (ground arith) (ground arith)
  LinkStep-Delivered s t u scans _ (publishes f scan e) d =
      let counter : u.link.scan_counter ≡ (t.link.scan_counter + 1) % 2 ^ 64 = ground arith in
      let received : u.link.last_scan_received ≡ scan = ground arith in
      record {
        counted = omega (arith, counter, d.counted, length-append scans (scan ∷ []));
        newest = received ∙ sym (ap (latest s.link.last_scan_received) (back-append scans scan));
      }

  Run-Delivered :
      (s t : Threads S) (scans : List Scan)
      → s.link.scan_counter < 2 ^ 64
      → Run s t scans
      → Delivered s t scans
  Run-Delivered s t _ small here = record { counted = omega arith; newest = refl }
  Run-Delivered s t _ small (own {t = u} {scans} before step) =
      let d = Run-Delivered s u scans small before in
      let (c, l) = OwnStep-delivers u t step in
      record { counted = c ∙ d.counted; newest = l ∙ d.newest }
  Run-Delivered s t _ small (receives {t = u} {scans} {new} before step) =
      LinkStep-Delivered s u t scans new step (Run-Delivered s u scans small before)

  -- A caller waits on a connected link while its threads take any steps, in which fewer than 2^64 scans
  -- are put out and the destructor does not run. It gets the newest of these scans, and nothing exactly
  -- if there is none: the wait is the read of a mailbox that holds the scans put out since its call.
  pub wait_for_next_scan-back :
      (s t : Threads S) (scans : List Scan)
      → Run s t scans
      → s.link.is_connected ≡ true
      → t.link.interrupt_flag ≡ false
      → s.link.scan_counter < 2 ^ 64
      → length scans < 2 ^ 64
      → wait_for_next_scan s.link t.link ≡ back scans
  wait_for_next_scan-back s t scans run connected runs small few =
      let d = Run-Delivered s t scans small run in
      elim (wait_for_next_scan-WaitEnds s.link t.link) [
        | not_connected off e ↦ cc
        | interrupted c on e ↦ cc
        | timed_out c runs' same e ↦ e ∙ sym (back-none scans (omega (arith, same, d.counted)))
        | scan_counted c other e ↦ elim (dec_lt 0 (length scans)) [
          | yes some_scans ↦
              let (scan, last) = back-some scans some_scans in
              e ∙ ap some (d.newest ∙ ap (latest s.link.last_scan_received) last) ∙ sym last
          | no no_scans ↦ absurd (other (omega (arith, d.counted, no_scans)))
        ]
      ]

  -- A caller waits on a link while its threads take any steps, the destructor's among them. Where the link
  -- was not connected at its call, it gets nothing. Otherwise it gets the newest of the scans put out
  -- since its call, and where there is none the scan that was the last one at its call: a caller that is
  -- interrupted on a connected link always gets a scan, new or not.
  pub wait_for_next_scan-latest :
      (s t : Threads S) (scans : List Scan)
      → Run s t scans
      → t.link.interrupt_flag ≡ true
      → s.link.scan_counter < 2 ^ 64
      → wait_for_next_scan s.link t.link ≡ (
          if s.link.is_connected
          then some (latest s.link.last_scan_received (back scans))
          else none)
  wait_for_next_scan-latest s t scans run stops small =
      let d = Run-Delivered s t scans small run in
      let answer : Bool → Option Scan = λ connected.
        if connected then some (latest s.link.last_scan_received (back scans)) else none in
      elim (wait_for_next_scan-WaitEnds s.link t.link) [
        | not_connected off e ↦ e ∙ ap answer (sym off)
        | interrupted c on e ↦ e ∙ ap some d.newest ∙ ap answer (sym c)
        | timed_out c runs same e ↦ cc
        | scan_counted c other e ↦ e ∙ ap some d.newest ∙ ap answer (sym c)
      ]
