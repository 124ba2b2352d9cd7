-- ===== src/System/Emission.antt =====
-- What one poll of an input puts into the queue, as the values that it tells.
use iot_visual_management_sy.Prelude.{
  ℕ, ◌≡◌, ◌≢◌, ◌≤◌, refl, ap, sym, ◌∙◌, of_bool, ℤ, Bool, true, false, List, [], ◌∷◌, ◌++◌, All,
  Option, none, some, arith, Bool-cases, Option-cases, inl, inr, if◌then◌else◌,
}
use iot_visual_management_sy.Event.{Event, EventType}
use iot_visual_management_sy.Rtos.{QueueApi}
use iot_visual_management_sy.EventQueue.{EventQueue}
use iot_visual_management_sy.EventQueue.Fifo.{contents, Fits}
use iot_visual_management_sy.Store.Outage.{IsPhysical}
use iot_visual_management_sy.Drivers.Digital.{DigitalInput}
use iot_visual_management_sy.Drivers.Digital
use iot_visual_management_sy.Drivers.Digital.Update.{
  reports, update_lem, update-Fits as digital-Fits, update_fields,
}
use iot_visual_management_sy.Drivers.Encoder.{RotaryEncoder}
use iot_visual_management_sy.Drivers.Encoder
use iot_visual_management_sy.Drivers.Encoder.Report.{
  tells, count_event, update_reports, update_source, update-Fits as encoder-Fits,
}
use iot_visual_management_sy.Drivers.Analog.{AdcApi, AnalogInput}
use iot_visual_management_sy.Drivers.Analog
use iot_visual_management_sy.Drivers.Analog.Report.{
  reported_value, accepting, events_of, update_reported,
}
use iot_visual_management_sy.Drivers.Analog.Fits.{update-Fits as analog-Fits}
use iot_visual_management_sy.Application.{should_publish, is_heartbeat}
use iot_visual_management_sy.Application.Converge.{told_after}

-- The station has four sources.
abbrev pub sources : ℕ
sources = 4

-- An event that goes upstream comes from a source of the station.
abbrev pub FromSource : Event → Type 0
FromSource e = should_publish e.type ≡ true → (is_heartbeat e.type ≡ false) × IsPhysical sources e

-- The value that an input has reported last, if any.
abbrev pub digital_value : DigitalInput → Option ℤ
digital_value d = if d.initial_event_pending then none else some (of_bool d.stable_state)

abbrev pub analog_value : {adc : AdcApi} → AnalogInput adc → Option ℤ
analog_value a = if a.initial_event_pending then none else some a.stable_percent

-- A type of an input's event.
abbrev pub IsReport : EventType → Type 0
IsReport t = (should_publish t ≡ true) × (is_heartbeat t ≡ false)

pub record IsWired (source : ℕ) (d : DigitalInput) : Type 0 where
  pub at : d.source_id ≡ source
  pub active : IsReport d.active_event
  pub inactive : IsReport d.inactive_event

-- A source of the station that is not the system's.
abbrev pub IsSource : ℕ → Type 0
IsSource source = (source ≢ 0) × (source ≤ sources)

pub state_event_lem :
    (source : ℕ) (d : DigitalInput) (b now_state : Bool) (now time : ℕ)
    → IsWired source d
    → let e = Digital.state_event (Digital.watch d b now) now_state time in
      (e.source_id ≡ source) × IsReport e.type × (e.value ≡ of_bool now_state)
unfolding Digital.state_event Digital.watch
state_event_lem source d b now_state now time h = ground (arith, h)

watch_value :
    (d : DigitalInput) (b : Bool) (now : ℕ)
    → digital_value (Digital.watch d b now) ≡ digital_value d
unfolding Digital.watch
watch_value d b now = ground arith

accepting_source :
    {adc : AdcApi} (a : AnalogInput adc) (o : Option ℤ) → (accepting a o).source_id ≡ a.source_id
accepting_source a none = refl
accepting_source a (some c) = refl

module _ {api : QueueApi} where
  -- From `q` to `q'` events of one source were added, which tell `after` if `before` was told.
  pub record Emits (source : ℕ) (before after : Option ℤ) (q q' : EventQueue api) : Type 0 where
    pub events : List Event
    pub added : contents q' ≡ contents q ++ events
    pub sound : All FromSource events
    pub own : All (λ e. e.source_id ≡ source) events
    pub tells_after : told_after source before events ≡ after
    pub fits : (n : ℕ) → Fits n q → Fits n q'

  one-Emits :
      (source : ℕ) (before after : Option ℤ) (q q' : EventQueue api) (e : Event)
      → IsSource source
      → contents q' ≡ contents q ++ e ∷ []
      → e.source_id ≡ source
      → IsReport e.type
      → after ≡ some e.value
      → ((n : ℕ) → Fits n q → Fits n q')
      → Emits source before after q q'
  unfolding told_after
  one-Emits source before after q q' e s at own kind value fits = record {
    events = e ∷ [];
    added = at;
    sound = ((λ h. (kind.1, rw own s)), tt);
    own = (own, tt);
    tells_after = ground arith;
    fits = fits;
  }

  none-Emits :
      (source : ℕ) (before after : Option ℤ) (q q' : EventQueue api)
      → contents q' ≡ contents q ++ []
      → after ≡ before
      → ((n : ℕ) → Fits n q → Fits n q')
      → Emits source before after q q'
  unfolding told_after
  none-Emits source before after q q' at same fits = record {
    events = [];
    added = at;
    sound = tt;
    own = tt;
    tells_after = sym same;
    fits = fits;
  }

  pub digital-IsWired :
      (source : ℕ) (d : DigitalInput) (q : EventQueue api) (p : Digital.Poll)
      → IsWired source d
      → IsWired source (Digital.update d q p).0
  digital-IsWired source d q p h =
      let (at, active, inactive) = update_fields d q p in
      record { at = at ∙ h.at; active = rw active h.active; inactive = rw inactive h.inactive }

  pub digital-Emits :
      (source : ℕ) (d : DigitalInput) (q : EventQueue api) (p : Digital.Poll)
      → IsSource source
      → IsWired source d
      → Emits source
          (digital_value d)
          (digital_value (Digital.update d q p).0)
          q
          (Digital.update d q p).1
  digital-Emits source d q p s h =
      let u = update_lem d q p in
      let raw_state = Digital.raw p.level in
      let w = Digital.watch d raw_state (Digital.to_ms p.time_us) in
      let e = Digital.state_event w raw_state p.publish_time_us in
      let (own, kind, value) =
        state_event_lem source d raw_state raw_state (Digital.to_ms p.time_us) p.publish_time_us
          h in
      elim (Bool-cases (reports d q p)) [
        | inl yes_report ↦
            one-Emits source _ _ q _ e s
              (u.1 ∙ ap (λ b. contents q ++ (if b then e ∷ [] else [])) yes_report) own kind
              (ap digital_value u.0 ∙ rw (yes_report, value) refl) (digital-Fits d q p)
        | inr no_report ↦
            none-Emits source _ _ q _
              (u.1 ∙ ap (λ b. contents q ++ (if b then e ∷ [] else [])) no_report)
              (ap digital_value u.0
                ∙ rw no_report (watch_value d raw_state (Digital.to_ms p.time_us)))
              (digital-Fits d q p)
      ]

  -- A report of the encoder that a full queue refuses is not made again, so its values are left open.
  pub encoder-Emits :
      (source : ℕ) (r : RotaryEncoder) (q : EventQueue api) (p : Encoder.Poll)
      → IsSource source
      → r.source_id ≡ source
      → (after : Option ℤ) × Emits source none after q (Encoder.update r q p).1
  unfolding told_after
  encoder-Emits source r q p s h =
      let r' = (Encoder.update r q p).0 in
      let e = count_event r' p.time_us in
      elim (Bool-cases (tells r' r.count q)) [
        | inl yes_report ↦ (
          some r'.count,
          one-Emits source none (some r'.count) q _ e s
              (update_reports r q p ∙ ap (λ b. contents q ++ (if b then e ∷ [] else [])) yes_report)
              (update_source r q p ∙ h) (refl, refl) refl (encoder-Fits r q p),
        )
        | inr no_report ↦ (
          none,
          none-Emits source none none q _
              (update_reports r q p ∙ ap (λ b. contents q ++ (if b then e ∷ [] else [])) no_report)
              refl (encoder-Fits r q p),
        )
      ]

module _ {adc : AdcApi} {api : QueueApi} where
  pub analog-Emits :
      (source : ℕ) (a : AnalogInput adc) (q : EventQueue api) (w : adc.Adc) (time : ℕ)
      → IsSource source
      → a.source_id ≡ source
      → Emits source
          (analog_value a)
          (analog_value (Analog.update a q w time).0.0)
          q
          (Analog.update a q w time).0.1
  analog-Emits source a q w time s h =
      let u = update_reported a q w time in
      elim (Option-cases (reported_value a q w)) [
        | inl idle ↦
            none-Emits source _ _ q _ (u.1 ∙ ap (λ o. contents q ++ events_of a time o) idle)
              (ap analog_value (u.0 ∙ ap (accepting a) idle)) (analog-Fits a q w time)
        | inr (c, report) ↦
            one-Emits source _ _ q _ (Analog.value_event a.source_id c time) s
              (u.1 ∙ ap (λ o. contents q ++ events_of a time o) report) h (refl, refl)
              (ap analog_value (u.0 ∙ ap (accepting a) report)) (analog-Fits a q w time)
      ]

  pub analog_source :
      (a : AnalogInput adc) (q : EventQueue api) (w : adc.Adc) (time : ℕ)
      → (Analog.update a q w time).0.0.source_id ≡ a.source_id
  analog_source a q w time =
      ap (λ x. x.source_id) (update_reported a q w time).0
      ∙ accepting_source a (reported_value a q w)
