-- ===== src/Scan/Tcp/Laws.antt =====
-- What the TCP factory (include/DataLink/TCPLink.hpp) puts out.
use r.Base.{ℕ, ◌≡◌, refl, true}
use r.Scan.{scan_is_complete}
use r.Scan.Tcp.{TcpScanFactory, is_complete, output, factory_empty}

pub scan_is_complete-output :
    (now : ℕ) (f : TcpScanFactory) → scan_is_complete (output now f).0 ≡ is_complete f
unfolding scan_is_complete output is_complete factory_empty
scan_is_complete-output now f = refl

pub factory_empty-output : (now : ℕ) (f : TcpScanFactory) → factory_empty (output now f).1 ≡ true
unfolding factory_empty output
factory_empty-output now f = refl
