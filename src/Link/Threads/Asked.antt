-- ===== src/Link/Threads/Asked.antt =====
-- The commands that a DataLink gives to the device, over the threads of src/DataLink/DataLink.cpp.
use r.Base.{
  ℕ, zero, suc, ◌≡◌, refl, sym, ap, ◌∙◌, arith, Bool, true, false, Bool-cases, inl, inr, List, [],
  ◌∷◌, ◌++◌, append-nil, replicate, Option,
}
use r.Scan.{Scan}
use r.Link.{
  DataLink, initial_link, set_output_scan, fire_scan_available, fire_connection_lost,
  add_on_connection_lost_callback, add_on_new_scan_callback,
}
use r.Device.{RequestResult, same_result}
use r.Link.Watchdog.{watchdog_round, stall_monitoring_round, start_stream}
use r.Link.Threads.{
  Command, start_scan, feed_watchdog, stop_scan, release_handle, Threads, construct, OwnStep,
  LinkStep, Run, here, own, receives, answers, feeds, monitors, registers_lost, registers_new,
  destroys, assembles, publishes, connects, loses, start_answered, feed, monitor, destroy,
}

-- The commands of a link that has fed the watchdog so often, and whether it has been destroyed.
abbrev ending : Bool → List Command
ending true = stop_scan ∷ release_handle ∷ []
ending false = []

abbrev pub protocol : ℕ → Bool → List Command
protocol fed destroyed = start_scan ∷ (replicate fed feed_watchdog ++ ending destroyed)

replicate-suc : (n : ℕ) (c : Command) → replicate n c ++ c ∷ [] ≡ replicate (suc n) c
replicate-suc zero c = refl
replicate-suc (suc n) c = ap (λ cs. c ∷ cs) (replicate-suc n c)

module _ {S : Type 0} where
  -- The commands so far are those of the protocol, and the flag tells whether the last two are among
  -- them.
  abbrev pub FollowsProtocol : Threads S → Type 0
  FollowsProtocol t = (fed : ℕ) × (t.asked ≡ protocol fed t.link.interrupt_flag)

  watchdog_round-interrupt_flag :
      (result : Option RequestResult) (link : DataLink S)
      → (watchdog_round result link).interrupt_flag ≡ link.interrupt_flag
  unfolding watchdog_round fire_connection_lost same_result
  watchdog_round-interrupt_flag result link = ground arith

  same_asked :
      (s t : Threads S)
      → t.asked ≡ s.asked
      → t.link.interrupt_flag ≡ s.link.interrupt_flag
      → FollowsProtocol s
      → FollowsProtocol t
  same_asked s t a i (fed, e) = (fed, a ∙ e ∙ ap (protocol fed) (sym i))

  destroy-FollowsProtocol : (s : Threads S) → FollowsProtocol s → FollowsProtocol (destroy s)
  unfolding destroy
  destroy-FollowsProtocol s (fed, e) = elim (Bool-cases s.link.interrupt_flag) [
    | inl over ↦ same_asked s (destroy s) (rw over) (simp over) (fed, e)
    | inr runs ↦
        let so_far = e ∙ ap (protocol fed) runs in
        let asked : (destroy s).asked ≡ s.asked ++ ending true = rw runs in
        let flag : (destroy s).link.interrupt_flag ≡ true = simp runs in
        (
          fed,
          asked
              ∙ ap (λ cs. cs ++ ending true) so_far
              ∙ (simp append-nil)
              ∙ sym (ap (protocol fed) flag),
        )
  ]

  feed-FollowsProtocol :
      (result : Option RequestResult) (s : Threads S)
      → s.link.interrupt_flag ≡ false
      → FollowsProtocol s
      → FollowsProtocol (feed result s)
  unfolding feed
  feed-FollowsProtocol result s runs (fed, e) =
      let so_far = e ∙ ap (protocol fed) runs in
      let flag = watchdog_round-interrupt_flag result s.link ∙ runs in
      (
        suc fed,
        ap (λ cs. cs ++ feed_watchdog ∷ []) so_far
            ∙ (simp (append-nil, replicate-suc))
            ∙ sym (ap (protocol (suc fed)) flag),
      )

  OwnStep-FollowsProtocol : (s t : Threads S) → OwnStep s t → FollowsProtocol s → FollowsProtocol t
  unfolding start_answered feed monitor watchdog_round stall_monitoring_round start_stream
      add_on_connection_lost_callback add_on_new_scan_callback fire_connection_lost same_result
  OwnStep-FollowsProtocol s t (answers result w a i e) h =
      same_asked s t (ground arith) (ground arith) h
  OwnStep-FollowsProtocol s t (feeds result w i e) h = rw e (feed-FollowsProtocol result s i h)
  OwnStep-FollowsProtocol s t (monitors now w i e) h =
      same_asked s t (ground arith) (ground arith) h
  OwnStep-FollowsProtocol s t (registers_lost c e) h =
      same_asked s t (ground arith) (ground arith) h
  OwnStep-FollowsProtocol s t (registers_new c e) h = same_asked s t (ground arith) (ground arith) h
  OwnStep-FollowsProtocol s t (destroys e) h = rw e (destroy-FollowsProtocol s h)

  LinkStep-FollowsProtocol :
      (s t : Threads S) (scans : List Scan)
      → LinkStep s t scans
      → FollowsProtocol s
      → FollowsProtocol t
  unfolding set_output_scan fire_scan_available fire_connection_lost
  LinkStep-FollowsProtocol s t _ (assembles f e) h = same_asked s t (ground arith) (ground arith) h
  LinkStep-FollowsProtocol s t _ (publishes f scan e) h =
      same_asked s t (ground arith) (ground arith) h
  LinkStep-FollowsProtocol s t _ (connects b e) h = same_asked s t (ground arith) (ground arith) h
  LinkStep-FollowsProtocol s t _ (loses e) h = same_asked s t (ground arith) (ground arith) h

  Run-FollowsProtocol :
      (s t : Threads S) (scans : List Scan) → Run s t scans → FollowsProtocol s → FollowsProtocol t
  Run-FollowsProtocol s t _ here h = h
  Run-FollowsProtocol s t _ (own {t = u} before step) h =
      OwnStep-FollowsProtocol u t step (Run-FollowsProtocol s u _ before h)
  Run-FollowsProtocol s t _ (receives {t = u} before step) h =
      LinkStep-FollowsProtocol u t _ step (Run-FollowsProtocol s u _ before h)

  construct-FollowsProtocol : (s : S) (accepted : Bool) → FollowsProtocol (construct s accepted)
  unfolding construct initial_link
  construct-FollowsProtocol s true = (0, refl)
  construct-FollowsProtocol s false = (0, refl)

  -- Whatever the threads of a link do from its constructor on, it asks the device first to start the
  -- stream, then to feed the watchdog, any number of times, and, exactly if the destructor has run, once
  -- to stop the stream and then to release the handle; nothing is asked behind that.
  pub construct-protocol :
      (s : S) (accepted : Bool) (t : Threads S) (scans : List Scan)
      → Run (construct s accepted) t scans
      → (fed : ℕ) × (t.asked ≡ protocol fed t.link.interrupt_flag)
  construct-protocol s accepted t scans run =
      Run-FollowsProtocol (construct s accepted) t scans run (construct-FollowsProtocol s accepted)
