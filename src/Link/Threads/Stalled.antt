-- ===== src/Link/Threads/Stalled.antt =====
-- `isStalled` of include/DataLink/DataLink.hpp over the threads of a link.
use r.Base.{◌≡◌, true, List, arith}
use r.Scan.{Scan}
use r.Device.{same_result}
use r.Link.{
  is_stalled, set_output_scan, fire_scan_available, fire_connection_lost,
  add_on_connection_lost_callback, add_on_new_scan_callback,
}
use r.Link.Watchdog.{watchdog_round, stall_monitoring_round, start_stream}
use r.Link.Threads.{
  Threads, OwnStep, LinkStep, Run, here, own, receives, answers, feeds, monitors, registers_lost,
  registers_new, destroys, assembles, publishes, connects, loses, start_answered, feed, monitor,
  destroy,
}

module _ {S : Type 0} where
  OwnStep-stalled :
      (s t : Threads S) → OwnStep s t → is_stalled s.link ≡ true → is_stalled t.link ≡ true
  unfolding is_stalled start_answered feed monitor destroy watchdog_round stall_monitoring_round
      start_stream add_on_connection_lost_callback add_on_new_scan_callback fire_connection_lost
      same_result
  OwnStep-stalled s t (answers r w a i e) h = ground arith
  OwnStep-stalled s t (feeds r w i e) h = ground arith
  OwnStep-stalled s t (monitors now w i e) h = ground arith
  OwnStep-stalled s t (registers_lost c e) h = ground arith
  OwnStep-stalled s t (registers_new c e) h = ground arith
  OwnStep-stalled s t (destroys e) h = ground arith

  LinkStep-stalled :
      (s t : Threads S) (scans : List Scan)
      → LinkStep s t scans
      → is_stalled s.link ≡ true
      → is_stalled t.link ≡ true
  unfolding is_stalled set_output_scan fire_scan_available fire_connection_lost
  LinkStep-stalled s t _ (assembles f e) h = ground arith
  LinkStep-stalled s t _ (publishes f scan e) h = ground arith
  LinkStep-stalled s t _ (connects b e) h = ground arith
  LinkStep-stalled s t _ (loses e) h = ground arith

  -- A link that is stalled is stalled for ever: whatever its threads do, and however many scans are put
  -- out from then on.
  pub is_stalled-Run :
      (s t : Threads S) (scans : List Scan)
      → Run s t scans
      → is_stalled s.link ≡ true
      → is_stalled t.link ≡ true
  is_stalled-Run s t _ here h = h
  is_stalled-Run s t _ (own {t = u} before step) h =
      OwnStep-stalled u t step (is_stalled-Run s u _ before h)
  is_stalled-Run s t _ (receives {t = u} before step) h =
      LinkStep-stalled u t _ step (is_stalled-Run s u _ before h)
