-- ===== src/Drivers/Digital/Update.antt =====
-- One poll of a digital input, on every branch, and the reports of a run of polls.
use iot_visual_management_sy.Prelude.{
  ℕ, ◌+◌, ◌/◌, ◌==◌, ◌≤◌, ◌<◌, ◌≡◌, ◌≢◌, ◌⊎◌, ◌↔◌, ◌∙◌, refl, ap, ltb, length, pos, u64_mod,
  sub64-exact, Bool, true, false, ◌&&◌, [], ◌∷◌, ◌++◌, append-nil, arith, Bool-cases, inl, inr,
  if◌then◌else◌,
}
use iot_visual_management_sy.Event.{Event, blank}
use iot_visual_management_sy.Rtos.{QueueApi}
use iot_visual_management_sy.EventQueue.{EventQueue}
use iot_visual_management_sy.EventQueue.Fifo.{contents, capacity, send_lem, Fits, send-Fits}
use iot_visual_management_sy.Drivers.Digital.{
  DigitalInput, Poll, raw, to_ms, watch, due, state_event, publish_state_change, accept, update,
}

-- The driver tries to publish at this poll.
abbrev pub tries : DigitalInput → Poll → Bool
tries d p = due (watch d (raw p.level) (to_ms p.time_us)) (raw p.level) (to_ms p.time_us)

-- A state is to be reported: the initial report is pending or the level differs from the
-- accepted one, and the level read last has been there for the debounce time.
abbrev pub Due : DigitalInput → Bool → ℕ → ℕ → Type 0
Due d pressed now since =
    ((d.initial_event_pending ≡ true) ⊎ (pressed ≢ d.stable_state)) × (since + d.debounce_ms ≤ now)

unfoldable pub reported_event : DigitalInput → Bool → ℕ → Event
reported_event d true time_us = record blank {
  type = d.active_event;
  source_id = d.source_id;
  value = pos 1;
  timestamp_ms = time_us / 1000;
}
reported_event d false time_us = record blank {
  type = d.inactive_event;
  source_id = d.source_id;
  value = pos 0;
  timestamp_ms = time_us / 1000;
}

-- When the level that is read now was first seen without a break.
abbrev pub since : DigitalInput → Bool → ℕ → ℕ
since d true now = if d.last_raw_state then d.last_change_time_ms else now
since d false now = if d.last_raw_state then now else d.last_change_time_ms

due-Due :
    (d : DigitalInput) (b : Bool) (now : ℕ)
    → d.last_change_time_ms ≤ now
    → now < u64_mod
    → (due (watch d b now) b now ≡ true) ↔ Due d b now (since d b now)
unfolding due watch
due-Due d b now past fits = elim (Bool-cases d.last_raw_state) [
  | inl high ↦ elim (Bool-cases b) [
    | inl yes_b ↦
        rw (yes_b, high) (ground (arith, high, yes_b, sub64-exact now d.last_change_time_ms))
    | inr no_b ↦ rw (no_b, high) (ground (arith, high, no_b, sub64-exact now now))
  ]
  | inr low ↦ elim (Bool-cases b) [
    | inl yes_b ↦ rw (yes_b, low) (ground (arith, low, yes_b, sub64-exact now now))
    | inr no_b ↦ rw (no_b, low) (ground (arith, low, no_b, sub64-exact now d.last_change_time_ms))
  ]
]

-- What the driver has seen after a poll that reads the level at the time.
abbrev pub seen : DigitalInput → Bool → ℕ → DigitalInput
seen d pressed now = record d {
  last_raw_state = pressed;
  last_change_time_ms = since d pressed now;
}

abbrev settled : Bool → DigitalInput → DigitalInput
settled b d = record d { stable_state = b; initial_event_pending = false }

watch-seen : (d : DigitalInput) (b : Bool) (now : ℕ) → watch d b now ≡ seen d b now
unfolding watch
watch-seen d true now = ground arith
watch-seen d false now = ground arith

state_event-reported_event :
    (d : DigitalInput) (b : Bool) (now time_us : ℕ)
    → state_event (seen d b now) b time_us ≡ reported_event d b time_us
unfolding state_event reported_event
state_event-reported_event d true now time_us = refl
state_event-reported_event d false now time_us = refl

module _ {api : QueueApi} where
  -- The driver's event enters the queue at this poll.
  abbrev pub reports : DigitalInput → EventQueue api → Poll → Bool
  reports d q p = tries d p && ltb (length (contents q)) (capacity q)

  accept_lem :
      (d : DigitalInput) (q : EventQueue api) (b : Bool) (now us : ℕ)
      → let done = due d b now && ltb (length (contents q)) (capacity q) in
        ((accept d q b now us).0
          ≡ (if done then record d { stable_state = b; initial_event_pending = false } else d))
        × (contents (accept d q b now us).1
            ≡ contents q ++ (if done then state_event d b us ∷ [] else []))
  unfolding accept publish_state_change
  accept_lem d q b now us = ground (arith, send_lem q (state_event d b us), append-nil (contents q))

  -- One poll, in terms of its parts.
  pub update_lem :
      (d : DigitalInput) (q : EventQueue api) (p : Poll)
      → let w = watch d (raw p.level) (to_ms p.time_us) in
        ((update d q p).0 ≡ (
          if reports d q p
          then record w { stable_state = raw p.level; initial_event_pending = false }
          else w))
        × (contents (update d q p).1
            ≡ contents q
              ++ (if reports d q p then state_event w (raw p.level) p.publish_time_us ∷ [] else []))
  unfolding update
  update_lem d q p =
      accept_lem (watch d (raw p.level) (to_ms p.time_us)) q (raw p.level) (to_ms p.time_us)
        p.publish_time_us

  -- One poll, if the timer does not run backwards. A level is pressed if it is low. Its state is to be
  -- reported if the initial report is pending or it differs from the accepted one, and the level has
  -- been read for at least the debounce time without a break. If that is so and the queue has room,
  -- the state is accepted and its event appended: the active event with the value 1 for a pressed
  -- level, the inactive one with 0 for another. If not, the queue keeps its contents, and the driver
  -- its accepted state and a pending report; either way it remembers the level and since when it is
  -- there.
  pub update_on_level :
      (d : DigitalInput) (q : EventQueue api) (p : Poll)
      → d.last_change_time_ms ≤ p.time_us / 1000
      → p.time_us / 1000 < u64_mod
      → let pressed = p.level == 0 in
        let now = p.time_us / 1000 in
        (Due d pressed now (since d pressed now)
          × (length (contents q) < capacity q)
          × ((update d q p).0 ≡ record (seen d pressed now) {
            stable_state = pressed;
            initial_event_pending = false;
          })
          × (contents (update d q p).1
              ≡ contents q ++ reported_event d pressed p.publish_time_us ∷ []))
        ⊎ (((¬ Due d pressed now (since d pressed now)) ⊎ (capacity q ≤ length (contents q)))
            × ((update d q p).0 ≡ seen d pressed now)
            × (contents (update d q p).1 ≡ contents q))
  update_on_level d q p past fits =
      let b = raw p.level in
      let now = to_ms p.time_us in
      let w = watch d b now in
      let us = p.publish_time_us in
      let u = update_lem d q p in
      let saw = watch-seen d b now in
      let i = due-Due d b now past fits in
      let idle : reports d q p ≡ false
          → ((update d q p).0 ≡ seen d b now) × (contents (update d q p).1 ≡ contents q) =
        λ h. (
          u.0
              ∙ ap
                  (λ c.
                    if c then record w { stable_state = b; initial_event_pending = false } else w)
                  h
              ∙ saw,
          u.1
              ∙ ap (λ c. contents q ++ (if c then state_event w b us ∷ [] else [])) h
              ∙ append-nil (contents q),
        ) in
      elim (Bool-cases (due w b now)) [
        | inr early ↦
            let same = idle (rw early refl) in inr (inl (λ h. cc (i.1 h, early)), same.0, same.1)
        | inl is_due ↦ elim (Bool-cases (ltb (length (contents q)) (capacity q))) [
          | inr full ↦
              let same = idle (rw (is_due, full) refl) in inr (inr (ground arith), same.0, same.1)
          | inl room ↦
              let h : reports d q p ≡ true = rw (is_due, room) refl in
              inl (
                i.0 is_due,
                ground arith,
                u.0
                    ∙ ap
                        (λ c.
                          if c
                          then record w { stable_state = b; initial_event_pending = false }
                          else w)
                        h
                    ∙ ap (settled b) saw,
                u.1
                    ∙ ap (λ c. contents q ++ (if c then state_event w b us ∷ [] else [])) h
                    ∙ ap (λ x. contents q ++ state_event x b us ∷ []) saw
                    ∙ ap (λ e. contents q ++ e ∷ []) (state_event-reported_event d b now us),
              )
        ]
      ]

  -- A poll sends one event or none.
  pub update-Fits :
      (d : DigitalInput) (q : EventQueue api) (p : Poll) (n : ℕ)
      → Fits n q
      → Fits n (update d q p).1
  unfolding update accept publish_state_change
  update-Fits d q p n h = elim (Bool-cases (tries d p)) [
    | inl due ↦ rw due (send-Fits q _ n h)
    | inr early ↦ rw early h
  ]

  -- A poll does not change the source and the events of the input.
  pub update_fields :
      (d : DigitalInput) (q : EventQueue api) (p : Poll)
      → let d' = (update d q p).0 in
        (d'.source_id ≡ d.source_id)
        × (d'.active_event ≡ d.active_event)
        × (d'.inactive_event ≡ d.inactive_event)
  unfolding update accept watch
  update_fields d q p = ground arith
