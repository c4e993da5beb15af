-- ===== src/Status/Watcher/Clients/Heard.antt =====
-- What a client of the status watcher hears, whatever the others do (include/StatusWatcher.hpp,
-- src/StatusWatcher.cpp).
use r.Base.{
  ℕ, ◌+◌, ◌≡◌, refl, sym, ◌∙◌, ap, true, false, Bool-cases, inl, inr, List, [], ◌∷◌, ◌++◌, All,
  ◌==◌, if◌then◌else◌, append-nil, append_assoc, arith,
}
use r.Status.Watcher.{
  device_connected, add_on_device_connected_callback, add_on_status_available_callback,
  add_on_device_disconnected_callback, set_disconnection_trigger_threshold,
}
use r.Status.Watcher.Turns.{
  turns, Alternates-append, turns-append, registrations, Follows, Hears, Round, watch_round-Round,
}
use r.Status.Watcher.Clients.{
  Watching, Move, looks, enters, adds_status, adds_disconnected, sets_threshold, rounds, destroys,
  move, run, look, enter, take_round, destroy, is_among,
}

registrations-append :
    (a c : ℕ) (cs : List ℕ) → (c == a) ≡ false → registrations a (cs ++ c ∷ []) ≡ registrations a cs
registrations-append a c [] h = rw h refl
registrations-append a c (x ∷ xs) h =
    ap (λ n. (if x == a then 1 else 0) + n) (registrations-append a c xs h)

pub is_among-append : (c : ℕ) (cs : List ℕ) → is_among c (cs ++ c ∷ []) ≡ true
is_among-append c [] = ground arith
is_among-append c (x ∷ xs) = rw (is_among-append c xs) (ground arith)

-- Where nothing comes between its halves, a registration is the one of the watcher.
pub run-look_enter :
    (c : ℕ) (s : Watching)
    → (run (looks c ∷ enters c ∷ []) s).watcher ≡ add_on_device_connected_callback c s.watcher
unfolding run move look enter add_on_device_connected_callback
run-look_enter c s = rw (is_among-append c s.looked)

module _ (a b : ℕ) where
  -- The registrations are of other callbacks.
  abbrev pub IsOther : Move → Type 0
  IsOther (looks c) = (c == a) ≡ false
  IsOther (enters c) = (c == a) ≡ false
  IsOther (adds_status c) = Unit
  IsOther (adds_disconnected c) = (c == b) ≡ false
  IsOther (sets_threshold n) = Unit
  IsOther (rounds answer) = Unit
  IsOther destroys = Unit

  move-Round :
      (m : Move) (s : Watching)
      → IsOther m
      → Follows a b s.watcher
      → Round a b s.watcher (move m s).watcher
  unfolding move look enter take_round destroy add_on_status_available_callback
      add_on_device_disconnected_callback set_disconnection_trigger_threshold
  move-Round (looks c) s h f = elim (Bool-cases s.watcher.is_connected) [
    | inl on ↦ rw on (record { follows = f; hears = (device_connected c ∷ [], refl, rw h (refl)) })
    | inr off ↦
        rw off (record { follows = f; hears = ([], sym (append-nil s.watcher.events), refl) })
  ]
  move-Round (enters c) s h (ha, hb) = elim (Bool-cases (is_among c s.looked)) [
    | inl waits ↦ rw waits (record {
      follows = (registrations-append a c s.watcher.on_device_connected_callbacks h ∙ ha, hb);
      hears = ([], sym (append-nil s.watcher.events), refl);
    })
    | inr away ↦
        rw away
          (record { follows = (ha, hb); hears = ([], sym (append-nil s.watcher.events), refl) })
  ]
  move-Round (adds_status c) s h f = record {
    follows = f;
    hears = ([], sym (append-nil s.watcher.events), refl);
  }
  move-Round (adds_disconnected c) s h (ha, hb) = record {
    follows = (ha, registrations-append b c s.watcher.on_device_disconnected_callbacks h ∙ hb);
    hears = ([], sym (append-nil s.watcher.events), refl);
  }
  move-Round (sets_threshold n) s h f = record {
    follows = f;
    hears = ([], sym (append-nil s.watcher.events), refl);
  }
  move-Round (rounds answer) s h f = elim (Bool-cases s.interrupt_flag) [
    | inl stopped ↦
        rw stopped (record { follows = f; hears = ([], sym (append-nil s.watcher.events), refl) })
    | inr goes ↦ rw goes (watch_round-Round a b answer s.watcher f)
  ]
  move-Round destroys s h f = record {
    follows = f;
    hears = ([], sym (append-nil s.watcher.events), refl);
  }

  -- A client has registered one callback for connections and one for disconnections. Whatever others
  -- register, however the requests of the watcher's task end and whenever the destructor runs, it
  -- hears of connections and disconnections in turn, and of each as it happens: every announcement
  -- differs from the state before it, and what it has heard last, or the state at first where it has
  -- heard nothing, is what the watcher says of the connection.
  pub run-Hears :
      (moves : List Move) (s : Watching)
      → All IsOther moves
      → Follows a b s.watcher
      → Hears a b s.watcher (run moves s).watcher
  unfolding run
  run-Hears [] s h f = ([], sym (append-nil s.watcher.events), refl)
  run-Hears (m ∷ moves) s (other, h) f =
      let first = move-Round m s other f in
      let (xs, e, k) = first.hears in
      let (ys, e', k') = run-Hears moves (move m s) h first.follows in
      (
        xs ++ ys,
        e' ∙ ap (λ zs. zs ++ ys) e ∙ append_assoc s.watcher.events xs ys,
        rw (turns-append a b xs ys)
            (Alternates-append s.watcher.is_connected _ _ (turns a b xs) (turns a b ys) k k'),
      )
