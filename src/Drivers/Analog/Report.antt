-- ===== src/Drivers/Analog/Report.antt =====
-- When the analog input reports, and what its reports are over a run of polls.
use iot_visual_management_sy.Prelude.{
  ℕ, ◌≤◌, ◌<◌, ◌≡◌, ◌⊎◌, ◌↔◌, ap, ◌∙◌, ltb, length, ℤ, pos, ◌≤ℤ◌, Bool, true, false, List, [], ◌∷◌,
  ◌++◌, append-nil, Option, none, some, arith, Option-cases, Bool-cases, inl, inr, if◌then◌else◌,
  ◌&&◌,
}
use iot_visual_management_sy.Event.{Event}
use iot_visual_management_sy.Rtos.{QueueApi}
use iot_visual_management_sy.EventQueue.{EventQueue}
use iot_visual_management_sy.EventQueue.Fifo.{contents, capacity, send_lem}
use iot_visual_management_sy.Drivers.Analog.{
  AdcApi, AnalogInput, raw_to_percent, distance, ignored, value_event, read_raw, publish_value,
  observe, update,
}

-- Far enough to report: by at least the deadband, and at all.
abbrev pub Apart : ℕ → ℤ → ℤ → Type 0
Apart deadband a b = (1 ≤ distance a b) × (deadband ≤ distance a b)

-- A value other than the accepted one lies at a distance.
distance_nonzero : (a b : ℤ) → (a ≡ b) ⊎ (1 ≤ distance a b)
distance_nonzero a b = ground arith

ignored_lem :
    (pending : Bool) (a b : ℤ) (deadband : ℕ)
    → (ignored pending a b deadband ≡ false) ↔ ((pending ≡ true) ⊎ Apart deadband a b)
unfolding ignored
ignored_lem pending a b deadband = ground (arith, distance_nonzero a b)

-- To be reported: the initial report is pending, or the value is far enough from the accepted one.
abbrev pub Due : {adc : AdcApi} → AnalogInput adc → ℤ → Type 0
Due a c = (a.initial_event_pending ≡ true) ⊎ Apart a.deadband_percent c a.stable_percent

abbrev pub accepting : {adc : AdcApi} → AnalogInput adc → Option ℤ → AnalogInput adc
accepting a none = a
accepting a (some c) = record a { stable_percent = c; initial_event_pending = false }

abbrev pub events_of : {adc : AdcApi} → AnalogInput adc → ℕ → Option ℤ → List Event
events_of a time none = []
events_of a time (some c) = value_event a.source_id c time ∷ []

module _ {adc : AdcApi} {api : QueueApi} where
  -- The value whose event enters the queue at this poll, if one does.
  pub reported_value : AnalogInput adc → EventQueue api → adc.Adc → Option ℤ
  reported_value a q w =
      if a.initialized && ltb (length (contents q)) (capacity q)
      then elim (read_raw a w).0 [
        | none ↦ none
        | some raw ↦
            if ignored a.initial_event_pending (raw_to_percent raw) a.stable_percent
              a.deadband_percent
            then none
            else some (raw_to_percent raw)
      ]
      else none

  observe_reported :
      (a : AnalogInput adc) (q : EventQueue api) (c : ℤ) (time : ℕ)
      → let r =
          if ltb (length (contents q)) (capacity q)
          then (if ignored a.initial_event_pending c a.stable_percent a.deadband_percent
              then none
              else some c)
          else none in
        ((observe a q c time).0 ≡ accepting a r)
        × (contents (observe a q c time).1 ≡ contents q ++ events_of a time r)
  unfolding observe publish_value
  observe_reported a q c time =
      ground (arith, send_lem q (value_event a.source_id c time), append-nil (contents q))

  pub update_reported :
      (a : AnalogInput adc) (q : EventQueue api) (w : adc.Adc) (time : ℕ)
      → ((update a q w time).0.0 ≡ accepting a (reported_value a q w))
        × (contents (update a q w time).0.1 ≡ contents q ++ events_of a time (reported_value a q w))
  unfolding update reported_value
  update_reported a q w time = elim (Option-cases (read_raw a w).0) [
    | inl unread ↦ ground (arith, append-nil (contents q))
    | inr (raw, sample) ↦
        ground (arith, observe_reported a q (raw_to_percent raw) time, append-nil (contents q))
  ]

  reportable_or_not :
      (a : AnalogInput adc) (q : EventQueue api) (c : ℤ)
      → (Due a c × (length (contents q) < capacity q))
        ⊎ ((¬ Due a c) ⊎ (capacity q ≤ length (contents q)))
  reportable_or_not a q c =
      let i = ignored_lem a.initial_event_pending c a.stable_percent a.deadband_percent in
      elim (Bool-cases (ltb (length (contents q)) (capacity q))) [
        | inr full ↦ inr (inr (ground arith))
        | inl room ↦
            elim (Bool-cases
              (ignored a.initial_event_pending c a.stable_percent a.deadband_percent)) [
                | inl near ↦ inr (inl (λ d. cc (i.1 d, near)))
                | inr far ↦ inl (i.0 far, ground arith)
              ]
      ]

  reported_value-reading :
      (a : AnalogInput adc) (q : EventQueue api) (w : adc.Adc) (raw : ℤ)
      → a.initialized ≡ true
      → (read_raw a w).0 ≡ some raw
      → let c = raw_to_percent raw in
        (Due a c → length (contents q) < capacity q → reported_value a q w ≡ some c)
        × ((¬ Due a c) ⊎ (capacity q ≤ length (contents q)) → reported_value a q w ≡ none)
  unfolding reported_value
  reported_value-reading a q w raw ready sample =
      let i =
        ignored_lem a.initial_event_pending (raw_to_percent raw) a.stable_percent
          a.deadband_percent in
      elim (Bool-cases (
        ignored a.initial_event_pending (raw_to_percent raw) a.stable_percent a.deadband_percent)) [
          | inl near ↦ (λ d r. absurd (ground (arith, i.1 d)), λ h. ground arith)
          | inr far ↦ (
            λ d r. ground arith,
            λ h. elim h [ inl not_due ↦ absurd (not_due (i.0 far)) | inr full ↦ ground arith ],
          )
        ]

  -- A poll of an initialized input that gets a reading: if the value is due and the queue has
  -- room, the event of the value is appended and the value accepted; if it is not due, or the
  -- queue is full, the queue keeps its contents and the input its accepted value and a pending
  -- report. A value is due while the initial report is pending, or from a distance of at least the
  -- deadband, and at least one, on.
  pub update_on_reading :
      (a : AnalogInput adc) (q : EventQueue api) (w : adc.Adc) (time : ℕ) (raw : ℤ)
      → a.initialized ≡ true
      → (read_raw a w).0 ≡ some raw
      → let c = raw_to_percent raw in
        let r = update a q w time in
        (Due a c
          × (length (contents q) < capacity q)
          × (r.0.0 ≡ record a { stable_percent = c; initial_event_pending = false })
          × (contents r.0.1 ≡ contents q ++ value_event a.source_id c time ∷ []))
        ⊎ (((¬ Due a c) ⊎ (capacity q ≤ length (contents q)))
            × (r.0.0 ≡ a)
            × (contents r.0.1 ≡ contents q))
  update_on_reading a q w time raw ready sample =
      let u = update_reported a q w time in
      let v = reported_value-reading a q w raw ready sample in
      elim (reportable_or_not a q (raw_to_percent raw)) [
        | inl (d, r) ↦ inl (
          d,
          r,
          u.0 ∙ ap (accepting a) (v.0 d r),
          u.1 ∙ ap (λ o. contents q ++ events_of a time o) (v.0 d r),
        )
        | inr h ↦ inr (
          h,
          u.0 ∙ ap (accepting a) (v.1 h),
          u.1 ∙ ap (λ o. contents q ++ events_of a time o) (v.1 h) ∙ append-nil (contents q),
        )
      ]

  -- A run of polls. Each finds the queue and the ADC as they are then.
  pub reported : AnalogInput adc → List (EventQueue api × (adc.Adc × ℕ)) → List ℤ
  reported a [] = []
  reported a ((q, (w, time)) ∷ ps) =
      let later = reported (update a q w time).0.0 ps in
      elim (reported_value a q w) [ none ↦ later | some c ↦ c ∷ later ]

-- Each value is in the range, and far enough from the one before.
abbrev pub Spaced : ℕ → ℤ → List ℤ → Type 0
Spaced deadband before [] = Unit {0}
Spaced deadband before (c ∷ cs) =
    (pos 0 ≤ℤ c) × (c ≤ℤ pos 100) × Apart deadband c before × Spaced deadband c cs
