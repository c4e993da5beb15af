-- ===== src/Link/Publishing.antt =====
-- `setOutputScanFromCompletedFactory` of include/DataLink/DataLink.hpp over the factories of both links.
use r.Base.{ℕ, ◌+◌, ◌%◌, ◌^◌, ◌≡◌, refl, ◌∙◌, true, ◌++◌, map}
use r.Scan.{scan_is_complete}
use r.Scan.Tcp.{TcpScanFactory, tcp_factory}
use r.Scan.Tcp.Laws.{scan_is_complete-output, factory_empty-output}
use r.Link.{DataLink, new_scan, publish, set_output_scan, fire_scan_available, get_last_scan}

-- Where its factory is complete, the TCP link publishes. The published scan is a complete one, it
-- becomes the last scan, it is counted once, each callback is given it once in the order of
-- registration, and the factory is left empty.
pub publish_complete :
    (clock : ℕ → ℕ) (link : DataLink TcpScanFactory)
    → tcp_factory.is_complete link.scan_factory ≡ true
    → let published = publish tcp_factory clock link in
      (scan_is_complete (get_last_scan published) ≡ true)
      × (published.scan_counter ≡ (link.scan_counter + 1) % 2 ^ 64)
      × (published.events
          ≡ link.events ++ map (λ c. new_scan c (get_last_scan published)) link.on_new_scan)
      × (tcp_factory.factory_empty published.scan_factory ≡ true)
unfolding publish set_output_scan fire_scan_available get_last_scan
publish_complete clock link h =
    let now = clock link.scan_counter in
    let complete = scan_is_complete-output now link.scan_factory ∙ h in
    rw h (complete, refl, refl, factory_empty-output now link.scan_factory)
