-- ===== src/Link/Wait.antt =====
-- `waitForNextScan` of include/DataLink/DataLink.hpp. The wait gives up the lock, so the link that
-- the call finds and the link that the wait ends with are two states.
use r.Base.{
  ℕ, ◌^◌, ◌<◌, ◌≡◌, arith, Bool, true, false, not, ◌||◌, Option, none, some, if◌then◌else◌, ◌==◌,
  ◌≢◌, Bool-cases, inl, inr,
}
use r.Scan.{Scan}
use r.Link.{DataLink, get_last_scan, set_output_scan}

module _ {S : Type 0} where
  -- The predicate that the condition variable waits for.
  pub wait_is_over : ℕ → DataLink S → Bool
  wait_is_over scan_count_before link =
      link.interrupt_flag || not (scan_count_before == link.scan_counter)

  -- `wait_for` returns the predicate's value when it ends, by a notification or by the timeout.
  pub wait_for_next_scan : DataLink S → DataLink S → Option Scan
  unfolding wait_is_over get_last_scan
  wait_for_next_scan before after =
      if not before.is_connected
      then none
      else if wait_is_over before.scan_counter after
      then some (get_last_scan after)
      else none

  -- A caller of a connected link that waits while the next scan is published gets that scan.
  pub wait_for_next_scan-set_output_scan :
      (scan : Scan) (link : DataLink S)
      → link.is_connected ≡ true
      → link.scan_counter < 2 ^ 64
      → wait_for_next_scan link (set_output_scan scan link) ≡ some scan
  unfolding wait_for_next_scan set_output_scan
  wait_for_next_scan-set_output_scan scan link connected bound = ground arith

  -- How a wait ends.
  pub data WaitEnds (before after : DataLink S) (r : Option Scan) : Type 0 where
    not_connected : before.is_connected ≡ false → r ≡ none → WaitEnds before after r
    interrupted :
        before.is_connected ≡ true
        → after.interrupt_flag ≡ true
        → r ≡ some after.last_scan_received
        → WaitEnds before after r
    timed_out :
        before.is_connected ≡ true
        → after.interrupt_flag ≡ false
        → before.scan_counter ≡ after.scan_counter
        → r ≡ none
        → WaitEnds before after r
    scan_counted :
        before.is_connected ≡ true
        → before.scan_counter ≢ after.scan_counter
        → r ≡ some after.last_scan_received
        → WaitEnds before after r

  pub wait_for_next_scan-WaitEnds :
      (before after : DataLink S) → WaitEnds before after (wait_for_next_scan before after)
  unfolding wait_for_next_scan
  wait_for_next_scan-WaitEnds before after = elim (Bool-cases before.is_connected) [
    | inr off ↦ not_connected off (ground arith)
    | inl on ↦ elim (Bool-cases after.interrupt_flag) [
      | inl stop ↦ interrupted on stop (ground arith)
      | inr runs ↦ elim (Bool-cases (before.scan_counter == after.scan_counter)) [
        | inl e ↦ timed_out on runs (ground arith) (ground arith)
        | inr e ↦ scan_counted on (λ h. absurd (ground arith)) (ground arith)
      ]
    ]
  ]
