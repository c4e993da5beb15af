-- ===== src/Tcp/Connection/Dead.antt =====
-- A TCPLink (src/DataLink/TCPLink.cpp) whose io service has nothing left to do.
use r.Base.{ℕ, ◌≡◌, refl, sym, ◌∙◌, true, false, List, [], ◌∷◌, ◌++◌, some}
use r.Device.{success, same_result}
use r.Link.{is_alive}
use r.Link.Threads.{feeds, feed}
use r.Link.Threads.Mailbox.{OwnStep-delivers}
use r.Link.Watchdog.{watchdog_round}
use r.Tcp.Connection.{
  Operation, resolving, connecting, reading, Session, Step, resolves, attempts, transfers, dies,
  closes, thread, Reach, here, next, close,
}

-- Nothing is pending, and no scan has been put out since.
record IsDeadSince (s t : Session) : Type 0 where
  idle : t.pending ≡ []
  no_scan : t.threads.link.scan_counter ≡ s.threads.link.scan_counter
  same_scan : t.threads.link.last_scan_received ≡ s.threads.link.last_scan_received

not_pending :
    (ps qs : List Operation) (p : Operation) → ¬ (◌≡◌ {A = List Operation} [] (ps ++ p ∷ qs))
not_pending [] qs p e = cc
not_pending (x ∷ ps) qs p e = cc

module _ (clock : ℕ → ℕ) (fuel : ℕ) where
  Step-IsDeadSince : (s t u : Session) → Step clock fuel t u → IsDeadSince s t → IsDeadSince s u
  unfolding close
  Step-IsDeadSince s t u (resolves e q ps qs p f) d =
      absurd (not_pending ps qs resolving (sym d.idle ∙ p))
  Step-IsDeadSince s t u (attempts e q ps qs p f) d =
      absurd (not_pending ps qs (connecting q) (sym d.idle ∙ p))
  Step-IsDeadSince s t u (transfers n b l q ps qs p o f) d =
      absurd (not_pending ps qs (reading n) (sym d.idle ∙ p))
  Step-IsDeadSince s t u (dies n b x ps qs p o f) d =
      absurd (not_pending ps qs (reading n) (sym d.idle ∙ p))
  Step-IsDeadSince s t u (closes f) d =
      rw f (record { idle = refl; no_scan = d.no_scan; same_scan = d.same_scan })
  Step-IsDeadSince s t u (thread threads own f) d =
      let (counter, last) = OwnStep-delivers t.threads threads own in
      rw f (record { idle = d.idle; no_scan = counter ∙ d.no_scan; same_scan = last ∙ d.same_scan })

  Reach-IsDeadSince : (s t : Session) → s.pending ≡ [] → Reach clock fuel s t → IsDeadSince s t
  Reach-IsDeadSince s t idle here = record { idle = idle; no_scan = refl; same_scan = refl }
  Reach-IsDeadSince s t idle (next {t = u} before step) =
      Step-IsDeadSince s u t step (Reach-IsDeadSince s u idle before)

  -- Where nothing is pending, as after an error of a read, whatever happens from then on: nothing is
  -- pending and no further scan has been put out; and yet, while the watchdog's task runs, its next
  -- success makes the link report that it is alive.
  pub is_alive-idle :
      (s t : Session)
      → s.pending ≡ []
      → Reach clock fuel s t
      → t.threads.tasks.watchdog ≡ true
      → t.threads.link.interrupt_flag ≡ false
      → (t.pending ≡ [])
        × (t.threads.link.scan_counter ≡ s.threads.link.scan_counter)
        × (t.threads.link.last_scan_received ≡ s.threads.link.last_scan_received)
        × ((u : Session) × Reach clock fuel t u × (is_alive u.threads.link ≡ true))
  unfolding is_alive feed watchdog_round same_result
  is_alive-idle s t idle reach watched runs =
      let d = Reach-IsDeadSince s t idle reach in
      (
        d.idle,
        d.no_scan,
        d.same_scan,
        (
          record t { threads = feed (some success) t.threads },
          next here (thread _ (feeds (some success) watched runs refl) refl),
          refl,
        ),
      )
