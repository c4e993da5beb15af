-- ===== src/Status/Watcher/Turns.antt =====
-- What the callbacks of the status watcher (src/StatusWatcher.cpp) tell a client of the connection.
use r.Base.{
  ℕ, ◌+◌, ◌%◌, ◌^◌, ◌≡◌, refl, sym, ap, Bool, true, false, not, Bool-cases, inl, inr, List, [], ◌∷◌,
  ◌++◌, map, none, some, leb, ◌==◌, if◌then◌else◌, append-nil, append_assoc, arith, ParametersMap,
  subst,
}
use r.Device.{success, same_result}
use r.Status.Watcher.{
  Event, device_connected, device_disconnected, status_available, StatusWatcher, Answer, on_success,
  on_failure, watch_round, fire_device_disconnection_event, fire_device_connection_event,
  set_status_to_output,
}

-- What a client hears that has registered `a` for connections and `b` for disconnections.
abbrev pub turns : ℕ → ℕ → List Event → List Bool
turns a b [] = []
turns a b (status_available c status ∷ events) = turns a b events
turns a b (device_connected c ∷ events) =
    let rest = turns a b events in if c == a then true ∷ rest else rest
turns a b (device_disconnected c ∷ events) =
    let rest = turns a b events in if c == b then false ∷ rest else rest

-- Each turn is one, and the last of them tells the state.
abbrev pub Alternates : Bool → List Bool → Bool → Type 0
Alternates before [] after = before ≡ after
Alternates before (turn ∷ rest) after = (turn ≡ not before) × Alternates turn rest after

-- The callback is registered once.
abbrev pub registrations : ℕ → List ℕ → ℕ
registrations a [] = 0
registrations a (c ∷ cs) = (if c == a then 1 else 0) + registrations a cs

pub turns-append :
    (a b : ℕ) (xs ys : List Event) → turns a b (xs ++ ys) ≡ turns a b xs ++ turns a b ys
turns-append a b [] ys = refl
turns-append a b (status_available c status ∷ xs) ys = turns-append a b xs ys
turns-append a b (device_connected c ∷ xs) ys = elim (Bool-cases (c == a)) [
  | inl e ↦ rw e (ap (λ ts. true ∷ ts) (turns-append a b xs ys))
  | inr e ↦ rw e (turns-append a b xs ys)
]
turns-append a b (device_disconnected c ∷ xs) ys = elim (Bool-cases (c == b)) [
  | inl e ↦ rw e (ap (λ ts. false ∷ ts) (turns-append a b xs ys))
  | inr e ↦ rw e (turns-append a b xs ys)
]

pub Alternates-append :
    (before middle after : Bool) (xs ys : List Bool)
    → Alternates before xs middle
    → Alternates middle ys after
    → Alternates before (xs ++ ys) after
Alternates-append before middle after [] ys h k = subst (λ b. Alternates b ys after) (sym h) k
Alternates-append before middle after (x ∷ xs) ys (t, h) k =
    (t, Alternates-append x middle after xs ys h k)

pub turns-status :
    (a b : ℕ) (status : ParametersMap) (cs : List ℕ)
    → turns a b (map (λ c. status_available c status) cs) ≡ []
turns-status a b status [] = refl
turns-status a b status (c ∷ cs) = turns-status a b status cs

pub turns-connected_none :
    (a b : ℕ) (cs : List ℕ) → registrations a cs ≡ 0 → turns a b (map device_connected cs) ≡ []
turns-connected_none a b [] h = refl
turns-connected_none a b (c ∷ cs) h = elim (Bool-cases (c == a)) [
  | inl e ↦ absurd (ground arith)
  | inr e ↦ rw e (turns-connected_none a b cs (ground arith))
]

turns-connected :
    (a b : ℕ) (cs : List ℕ)
    → registrations a cs ≡ 1
    → turns a b (map device_connected cs) ≡ true ∷ []
turns-connected a b [] h = absurd (omega (arith, h))
turns-connected a b (c ∷ cs) h = elim (Bool-cases (c == a)) [
  | inl e ↦ rw e (ap (λ ts. true ∷ ts) (turns-connected_none a b cs (ground arith)))
  | inr e ↦ rw e (turns-connected a b cs (ground arith))
]

turns-disconnected_none :
    (a b : ℕ) (cs : List ℕ) → registrations b cs ≡ 0 → turns a b (map device_disconnected cs) ≡ []
turns-disconnected_none a b [] h = refl
turns-disconnected_none a b (c ∷ cs) h = elim (Bool-cases (c == b)) [
  | inl e ↦ absurd (ground arith)
  | inr e ↦ rw e (turns-disconnected_none a b cs (ground arith))
]

turns-disconnected :
    (a b : ℕ) (cs : List ℕ)
    → registrations b cs ≡ 1
    → turns a b (map device_disconnected cs) ≡ false ∷ []
turns-disconnected a b [] h = absurd (omega (arith, h))
turns-disconnected a b (c ∷ cs) h = elim (Bool-cases (c == b)) [
  | inl e ↦ rw e (ap (λ ts. false ∷ ts) (turns-disconnected_none a b cs (ground arith)))
  | inr e ↦ rw e (turns-disconnected a b cs (ground arith))
]

module _ (a b : ℕ) where
  -- Both callbacks are registered once.
  abbrev pub Follows : StatusWatcher → Type 0
  Follows w =
      (registrations a w.on_device_connected_callbacks ≡ 1)
      × (registrations b w.on_device_disconnected_callbacks ≡ 1)

  -- What a client has heard from one state to another.
  abbrev pub Hears : StatusWatcher → StatusWatcher → Type 0
  Hears w w' =
      (new : List Event) × (w'.events ≡ w.events ++ new)
      × Alternates w.is_connected (turns a b new) w'.is_connected

  pub record Round (w w' : StatusWatcher) : Type 0 where
    pub follows : Follows w'
    pub hears : Hears w w'

  on_success-Round :
      (status : ParametersMap) (w : StatusWatcher) → Follows w → Round w (on_success status w)
  unfolding on_success set_status_to_output fire_device_connection_event
  on_success-Round status w (ha, hb) =
      let statuses = map (λ c. status_available c status) w.on_status_available_callbacks in
      let quiet = turns-status a b status w.on_status_available_callbacks in
      elim (Bool-cases w.is_connected) [
        | inl on ↦ rw on (record { follows = (ha, hb); hears = (statuses, refl, rw quiet refl) })
        | inr off ↦ rw off (record {
          follows = (ha, hb);
          hears = (
            statuses ++ map device_connected w.on_device_connected_callbacks,
            append_assoc w.events statuses _,
            rw (turns-append a b statuses _, quiet, turns-connected a b _ ha) (refl, refl),
          );
        })
      ]

  on_failure-Round : (w : StatusWatcher) → Follows w → Round w (on_failure w)
  unfolding on_failure fire_device_disconnection_event
  on_failure-Round w (ha, hb) =
      elim (Bool-cases
        (leb w.disconnection_trigger_threshold ((w.disconnection_hit_count + 1) % 2 ^ 32))) [
          | inr below ↦
              rw below
                (record { follows = (ha, hb); hears = ([], sym (append-nil w.events), refl) })
          | inl reached ↦ elim (Bool-cases w.is_connected) [
            | inl on ↦
                rw (reached, on)
                  (record {
                    follows = (ha, hb);
                    hears = (
                      map device_disconnected w.on_device_disconnected_callbacks,
                      refl,
                      rw (turns-disconnected a b _ hb) (refl, refl),
                    );
                  })
            | inr off ↦
                rw (reached, off)
                  (record { follows = (ha, hb); hears = ([], sym (append-nil w.events), refl) })
          ]
        ]

  pub watch_round-Round :
      (answer : Answer) (w : StatusWatcher) → Follows w → Round w (watch_round answer w)
  unfolding watch_round
  watch_round-Round none w f = record { follows = f; hears = ([], sym (append-nil w.events), refl) }
  watch_round-Round (some (result, status)) w f = elim (Bool-cases (same_result result success)) [
    | inl ok ↦ rw ok (on_success-Round status w f)
    | inr failed ↦ rw failed (on_failure-Round w f)
  ]
