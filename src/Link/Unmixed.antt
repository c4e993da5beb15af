-- ===== src/Link/Unmixed.antt =====
-- No scan that a DataLink (include/DataLink/DataLink.hpp) publishes mixes the packets of two scans, over
-- any factory that obeys the laws of the interface.
use r.Base.{
  ℕ, ◌≡◌, refl, sym, subst, arith, Option, none, some, false, Bool-cases, inl, inr, List, [], ◌∷◌,
  map, All, All-append, All-weaken, All-perm,
}
use r.Wire.{Header}
use r.Scan.{Scan, ScanFactory}
use mathlib.Core.List.Permᴰ
use r.Scan.Lawful.{IsScanFactory}
use r.Extract.OneScan.{IsOneScan}
use r.Device.{RequestResult, success, same_result}
use r.Link.Watchdog.{watchdog_round, stall_monitoring_round, start_stream}
use r.Link.Threads.{
  Threads, OwnStep, answers, feeds, monitors, registers_lost, registers_new, destroys,
  start_answered, feed, monitor, destroy,
}
use r.Link.{
  add_on_connection_lost_callback, add_on_new_scan_callback, DataLink, Event, connection_lost,
  new_scan, publish, set_output_scan, fire_scan_available, initial_link, fire_connection_lost,
}

-- All packets have one scan number.
abbrev pub IsOfOneScan : Scan → Type 0
IsOfOneScan scan = (k : ℕ) × All (λ (h : Header). h.scan_number ≡ k) scan.headers

abbrev pub TellsOneScan : Event → Type 0
TellsOneScan (connection_lost callback) = Unit {0}
TellsOneScan (new_scan callback scan) = IsOfOneScan scan

pub IsOneScan-same_number :
    (hs : List Header) → IsOneScan hs → (k : ℕ) × All (λ (h : Header). h.scan_number ≡ k) hs
IsOneScan-same_number [] one = (0, tt)
IsOneScan-same_number (h ∷ hs) one = (h.scan_number, (refl, All-weaken _ _ hs (λ x p. p.0) one))

module _ {S : Type 0} (factory : ScanFactory S) where
  open factory use {get_headers, output, is_complete}

  -- What the link assembles, what it has published last, and what it has told its callbacks.
  pub record IsUnmixed (link : DataLink S) : Type 0 where
    pub assembling : IsOneScan (get_headers link.scan_factory)
    pub last : IsOfOneScan link.last_scan_received
    pub told : All TellsOneScan link.events

  tells :
      (callbacks : List ℕ) (scan : Scan)
      → IsOfOneScan scan
      → All TellsOneScan (map (λ c. new_scan c scan) callbacks)
  tells [] scan one = tt
  tells (c ∷ cs) scan one = (one, tells cs scan one)

  loses : (callbacks : List ℕ) → All TellsOneScan (map connection_lost callbacks)
  loses [] = tt
  loses (c ∷ cs) = (tt, loses cs)

  pub fire_connection_lost-IsUnmixed :
      (link : DataLink S)
      → IsUnmixed link
      → IsUnmixed (fire_connection_lost (record link { is_connected = false }))
  unfolding fire_connection_lost
  fire_connection_lost-IsUnmixed link u = record {
    assembling = u.assembling;
    last = u.last;
    told = All-append TellsOneScan link.events _ u.told (loses link.on_connection_lost);
  }

  module _ (laws : IsScanFactory factory) where
    output_one : (now : ℕ) (s : S) → IsOneScan (get_headers s) → IsOfOneScan (output now s).0
    output_one now s one =
        let (k, same) = IsOneScan-same_number (get_headers s) one in
        (k, All-perm _ (Permᴰ.symm (laws.output_headers now s)) same)

    pub publish-IsUnmixed :
        (clock : ℕ → ℕ) (link : DataLink S) (s : S)
        → IsUnmixed link
        → IsOneScan (get_headers s)
        → IsUnmixed (publish factory clock (record link { scan_factory = s }))
    unfolding publish set_output_scan fire_scan_available
    publish-IsUnmixed clock link s u one = elim (Bool-cases (is_complete s)) [
      | inl whole ↦
          let scan = output_one (clock link.scan_counter) s one in
          rw whole (record {
            assembling = rw (laws.get_headers-output (clock link.scan_counter) s) tt;
            last = scan;
            told = All-append TellsOneScan link.events _ u.told (tells link.on_new_scan _ scan);
          })
      | inr part ↦ rw part (record { assembling = one; last = u.last; told = u.told })
    ]

    pub initial_link-IsUnmixed : (s : S) → get_headers s ≡ [] → IsUnmixed (initial_link s)
    unfolding initial_link
    initial_link-IsUnmixed s e = record { assembling = rw e tt; last = (0, tt); told = tt }

  pub same_link-IsUnmixed :
      (link after : DataLink S)
      → after.scan_factory ≡ link.scan_factory
      → after.last_scan_received ≡ link.last_scan_received
      → after.events ≡ link.events
      → IsUnmixed link
      → IsUnmixed after
  same_link-IsUnmixed link after f l e u = record {
    assembling = subst (λ s. IsOneScan (get_headers s)) (sym f) u.assembling;
    last = subst IsOfOneScan (sym l) u.last;
    told = subst (All TellsOneScan) (sym e) u.told;
  }

  watchdog_round-IsUnmixed :
      (result : Option RequestResult) (link : DataLink S)
      → IsUnmixed link
      → IsUnmixed (watchdog_round result link)
  unfolding watchdog_round
  watchdog_round-IsUnmixed none link u = same_link-IsUnmixed link _ refl refl refl u
  watchdog_round-IsUnmixed (some result) link u = elim (Bool-cases (same_result result success)) [
    | inl ok ↦ rw ok (same_link-IsUnmixed link _ refl refl refl u)
    | inr bad ↦ elim (Bool-cases link.is_connected) [
      | inl on ↦ rw (bad, on) (fire_connection_lost-IsUnmixed link u)
      | inr off ↦ rw (bad, off) (same_link-IsUnmixed link _ refl refl refl u)
    ]
  ]

  -- No step of the link's own threads mixes scans.
  pub OwnStep-IsUnmixed : (s t : Threads S) → OwnStep s t → IsUnmixed s.link → IsUnmixed t.link
  unfolding start_answered feed monitor destroy stall_monitoring_round start_stream
      add_on_connection_lost_callback add_on_new_scan_callback
  OwnStep-IsUnmixed s t (answers result w a i e) u =
      same_link-IsUnmixed s.link t.link (ground arith) (ground arith) (ground arith) u
  OwnStep-IsUnmixed s t (feeds result w i e) u = rw e (watchdog_round-IsUnmixed result s.link u)
  OwnStep-IsUnmixed s t (monitors now w i e) u =
      same_link-IsUnmixed s.link t.link (ground arith) (ground arith) (ground arith) u
  OwnStep-IsUnmixed s t (registers_lost c e) u =
      same_link-IsUnmixed s.link t.link (ground arith) (ground arith) (ground arith) u
  OwnStep-IsUnmixed s t (registers_new c e) u =
      same_link-IsUnmixed s.link t.link (ground arith) (ground arith) (ground arith) u
  OwnStep-IsUnmixed s t (destroys e) u =
      same_link-IsUnmixed s.link t.link (ground arith) (ground arith) (ground arith) u
