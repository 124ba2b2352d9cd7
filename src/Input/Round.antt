-- ===== src/Input/Round.antt =====
-- What one polling round adds to the queue.
use iot_visual_management_sy.Prelude.{
  ℕ, Bool, true, false, ◌≡◌, ◌⊎◌, refl, List, [], ◌∷◌, ◌++◌, append_assoc, arith, if◌then◌else◌,
  Option-cases, inl, inr, ap, ◌∙◌,
}
use iot_visual_management_sy.Event.{Event}
use iot_visual_management_sy.Rtos.{QueueApi}
use iot_visual_management_sy.EventQueue.{EventQueue}
use iot_visual_management_sy.EventQueue.Fifo.{contents}
use iot_visual_management_sy.Drivers.Digital.{DigitalInput}
use iot_visual_management_sy.Drivers.Digital
use iot_visual_management_sy.Drivers.Digital.Update.{reports, update_lem}
use iot_visual_management_sy.Drivers.Encoder.{RotaryEncoder}
use iot_visual_management_sy.Drivers.Encoder
use iot_visual_management_sy.Drivers.Analog.{AdcApi, AnalogInput}
use iot_visual_management_sy.Drivers.Analog
use iot_visual_management_sy.Drivers.Encoder.Report.{
  tells, count_event, update_reports, update_source,
}
use iot_visual_management_sy.Drivers.Analog.Report.{reported_value, events_of, update_reported}
use iot_visual_management_sy.Input.{InputManager, Readings, poll_round}

-- At most one event of the source.
abbrev pub OneOf : ℕ → List Event → Type 0
OneOf source es = (es ≡ []) ⊎ ((e : Event) × (es ≡ e ∷ []) × (e.source_id ≡ source))

OneOf-if :
    (source : ℕ) (b : Bool) (e : Event)
    → e.source_id ≡ source
    → OneOf source (if b then e ∷ [] else [])
OneOf-if source true e h = inr (e, refl, h)
OneOf-if source false e h = inl refl

module _ {api : QueueApi} where
  -- The queue after a call is the queue before it with at most one event of the source behind.
  abbrev Appends : ℕ → EventQueue api → EventQueue api → Type 0
  Appends source q q' = (es : List Event) × OneOf source es × (contents q' ≡ contents q ++ es)

  digital-Appends :
      (d : DigitalInput) (q : EventQueue api) (p : Digital.Poll)
      → Appends d.source_id q (Digital.update d q p).1
  unfolding Digital.watch Digital.state_event
  digital-Appends d q p =
      let w = Digital.watch d (Digital.raw p.level) (Digital.to_ms p.time_us) in
      (
        _,
        OneOf-if d.source_id (reports d q p)
            (Digital.state_event w (Digital.raw p.level) p.publish_time_us) (ground arith),
        (update_lem d q p).1,
      )

  encoder-Appends :
      (r : RotaryEncoder) (q : EventQueue api) (p : Encoder.Poll)
      → Appends r.source_id q (Encoder.update r q p).1
  encoder-Appends r q p =
      let r' = (Encoder.update r q p).0 in
      (
        _,
        OneOf-if r.source_id (tells r' r.count q) (count_event r' p.time_us) (update_source r q p),
        update_reports r q p,
      )

module _ {adc : AdcApi} {api : QueueApi} where
  analog-Appends :
      (a : AnalogInput adc) (q : EventQueue api) (w : adc.Adc) (time : ℕ)
      → Appends a.source_id q (Analog.update a q w time).0.1
  analog-Appends a q w time = elim (Option-cases (reported_value a q w)) [
    | inl idle ↦ (
      [],
      inl refl,
      (update_reported a q w time).1 ∙ ap (λ o. contents q ++ events_of a time o) idle,
    )
    | inr (c, told) ↦ (
      _,
      inr (_, refl, refl),
      (update_reported a q w time).1 ∙ ap (λ o. contents q ++ events_of a time o) told,
    )
  ]

-- What a round adds: at most one event of each input, in the order of the polls.
pub record Added {adc : AdcApi} (i : InputManager adc) (before after : List Event) : Type 0 where
  pub button : List Event
  pub toggle : List Event
  pub encoder : List Event
  pub analog : List Event
  pub one_button : OneOf i.button_input.source_id button
  pub one_toggle : OneOf i.toggle_input.source_id toggle
  pub one_encoder : OneOf i.rotary_encoder.source_id encoder
  pub one_analog : OneOf i.analog_input.source_id analog
  pub all : after ≡ before ++ (button ++ (toggle ++ (encoder ++ analog)))

appended : (q b t e a : List Event) → (((q ++ b) ++ t) ++ e) ++ a ≡ q ++ (b ++ (t ++ (e ++ a)))
appended q b t e a =
    append_assoc ((q ++ b) ++ t) e a
    ∙ append_assoc (q ++ b) t (e ++ a)
    ∙ append_assoc q b (t ++ (e ++ a))

module _ {adc : AdcApi} {api : QueueApi} where
  -- One polling round leaves the queue with what it held, followed by at most one event of each
  -- input, in the order button, toggle, encoder, analog input, each with the source ID of its input.
  pub poll_round-Added :
      (i : InputManager adc) (q : EventQueue api) (w : adc.Adc) (r : Readings)
      → Added i (contents q) (contents (poll_round i q w r).0.1)
  unfolding poll_round
  poll_round-Added i q w r =
      let b = digital-Appends i.button_input q r.button in
      let q1 = (Digital.update i.button_input q r.button).1 in
      let t = digital-Appends i.toggle_input q1 r.toggle in
      let q2 = (Digital.update i.toggle_input q1 r.toggle).1 in
      let e = encoder-Appends i.rotary_encoder q2 r.encoder in
      let q3 = (Encoder.update i.rotary_encoder q2 r.encoder).1 in
      let a = analog-Appends i.analog_input q3 w r.analog_time_us in
      record {
        button = b.0;
        toggle = t.0;
        encoder = e.0;
        analog = a.0;
        one_button = b.1;
        one_toggle = t.1;
        one_encoder = e.1;
        one_analog = a.1;
        all =
            a.2
            ∙ ap (λ x. x ++ a.0) e.2
            ∙ ap (λ x. (x ++ e.0) ++ a.0) t.2
            ∙ ap (λ x. ((x ++ t.0) ++ e.0) ++ a.0) b.2
            ∙ appended (contents q) b.0 t.0 e.0 a.0;
      }
