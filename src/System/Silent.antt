-- ===== src/System/Silent.antt =====
-- Which events say nothing of the output: those of the inputs and the notices of the connections, so
-- that only a command sets it.
use iot_visual_management_sy.Prelude.{
  ℕ, ◌≡◌, refl, ap, sym, ◌∙◌, Bool, true, false, List, [], ◌∷◌, ◌++◌, append-nil, append_assoc, All,
  All-append, none, some, arith, if◌then◌else◌, Option-cases, inl, inr,
}
use iot_visual_management_sy.Event.{Event}
use iot_visual_management_sy.Rtos.{QueueApi}
use iot_visual_management_sy.EventQueue.{EventQueue}
use iot_visual_management_sy.EventQueue
use iot_visual_management_sy.EventQueue.Fifo.{contents, send_lem}
use iot_visual_management_sy.StateManager.Latest.{of_output}
use iot_visual_management_sy.Drivers.Digital.{DigitalInput}
use iot_visual_management_sy.Drivers.Digital
use iot_visual_management_sy.Drivers.Digital.Update.{reports, update_lem}
use iot_visual_management_sy.Drivers.Encoder.{RotaryEncoder}
use iot_visual_management_sy.Drivers.Encoder
use iot_visual_management_sy.Drivers.Encoder.Report.{tells, count_event, update_reports}
use iot_visual_management_sy.Drivers.Analog.{AdcApi, AnalogInput}
use iot_visual_management_sy.Drivers.Analog
use iot_visual_management_sy.Drivers.Analog.Report.{reported_value, events_of, update_reported}
use iot_visual_management_sy.Input.{InputManager, Readings, poll_round}
use iot_visual_management_sy.Cjson.{CjsonApi}
use iot_visual_management_sy.Mqtt.{
  MqttApi, MqttEvent, mqtt_event_connected, mqtt_event_disconnected, mqtt_event_data,
  mqtt_event_error, mqtt_event_other, Station, publish_connection_event, handle_event,
}
use iot_visual_management_sy.EspWifi.{WifiApi}
use iot_visual_management_sy.Wifi.{
  WifiEvent, wifi_event_sta_start, wifi_event_sta_disconnected, ip_event_sta_got_ip,
  wifi_event_other, ip_event_other, handle_wifi_event,
}
use iot_visual_management_sy.Wifi
use iot_visual_management_sy.Application.{should_publish}
use iot_visual_management_sy.System.Emission.{IsWired, state_event_lem}
use iot_visual_management_sy.System.Inputs.{AreWired}

-- The event says nothing of the output.
abbrev pub IsSilent : Event → Type 0
IsSilent e = of_output e.type e.value ≡ none

report-IsSilent : (e : Event) → should_publish e.type ≡ true → IsSilent e
report-IsSilent e h = ground arith

module _ {api : QueueApi} where
  -- The queue after is the queue before with events behind that say nothing of the output.
  pub record Adds (q q' : EventQueue api) : Type 0 where
    pub added : List Event
    pub at : contents q' ≡ contents q ++ added
    pub silent : All IsSilent added

  Adds-if :
      (q q' : EventQueue api) (b : Bool) (e : Event)
      → IsSilent e
      → contents q' ≡ contents q ++ (if b then e ∷ [] else [])
      → Adds q q'
  Adds-if q q' true e h at = record { added = e ∷ []; at = at; silent = (h, tt) }
  Adds-if q q' false e h at = record { added = []; at = at; silent = tt }

  pub Adds-same : (q q' : EventQueue api) → q' ≡ q → Adds q q'
  Adds-same q q' same = record {
    added = [];
    at = ap contents same ∙ sym (append-nil (contents q));
    silent = tt;
  }

  Adds-trans : (q r s : EventQueue api) → Adds q r → Adds r s → Adds q s
  Adds-trans q r s f g = record {
    added = f.added ++ g.added;
    at = g.at ∙ ap (λ es. es ++ g.added) f.at ∙ append_assoc (contents q) f.added g.added;
    silent = All-append IsSilent f.added g.added f.silent g.silent;
  }

  Adds-send : (q : EventQueue api) (e : Event) → IsSilent e → Adds q (EventQueue.send q e).1
  Adds-send q e h = Adds-if q _ (EventQueue.send q e).0 e h (send_lem q e).1

  digital-Adds :
      (source : ℕ) (d : DigitalInput) (q : EventQueue api) (p : Digital.Poll)
      → IsWired source d
      → Adds q (Digital.update d q p).1
  digital-Adds source d q p h =
      let raw_state = Digital.raw p.level in
      let now = Digital.to_ms p.time_us in
      let (own, kind, value) =
        state_event_lem source d raw_state raw_state now p.publish_time_us h in
      let e = Digital.state_event (Digital.watch d raw_state now) raw_state p.publish_time_us in
      Adds-if q _ (reports d q p) e (report-IsSilent e kind.0) (update_lem d q p).1

  encoder-Adds :
      (r : RotaryEncoder) (q : EventQueue api) (p : Encoder.Poll) → Adds q (Encoder.update r q p).1
  encoder-Adds r q p =
      let r' = (Encoder.update r q p).0 in
      Adds-if q _ (tells r' r.count q) (count_event r' p.time_us) refl (update_reports r q p)

module _ {adc : AdcApi} {api : QueueApi} where
  analog-Adds :
      (a : AnalogInput adc) (q : EventQueue api) (w : adc.Adc) (time : ℕ)
      → Adds q (Analog.update a q w time).0.1
  analog-Adds a q w time =
      let at = (update_reported a q w time).1 in
      elim (Option-cases (reported_value a q w)) [
        | inl idle ↦ record {
          added = [];
          at = at ∙ ap (λ o. contents q ++ events_of a time o) idle;
          silent = tt;
        }
        | inr (c, told) ↦ record {
          added = events_of a time (some c);
          at = at ∙ ap (λ o. contents q ++ events_of a time o) told;
          silent = (refl, tt);
        }
      ]

  pub poll_round-Adds :
      (i : InputManager adc) (q : EventQueue api) (w : adc.Adc) (r : Readings)
      → AreWired i
      → Adds q (poll_round i q w r).0.1
  unfolding poll_round
  poll_round-Adds i q w r h =
      let q1 = (Digital.update i.button_input q r.button).1 in
      let q2 = (Digital.update i.toggle_input q1 r.toggle).1 in
      let q3 = (Encoder.update i.rotary_encoder q2 r.encoder).1 in
      Adds-trans q q1 _ (digital-Adds 1 i.button_input q r.button h.button) (
        Adds-trans q1 q2 _ (digital-Adds 2 i.toggle_input q1 r.toggle h.toggle) (
          Adds-trans q2 q3 _ (encoder-Adds i.rotary_encoder q2 r.encoder)
            (analog-Adds i.analog_input q3 w r.analog_time_us)))

-- The events of the client that bring a message.
abbrev pub is_message : MqttEvent → Bool
is_message (mqtt_event_data a) = true
is_message _ = false

module _ {mqtt : MqttApi} {api : QueueApi} (json : CjsonApi) where
  pub handle_event-Adds :
      (s : Station mqtt api json) (event : MqttEvent) (time_us : ℕ)
      → is_message event ≡ false
      → Adds s.queue (handle_event json s event time_us).queue
  unfolding handle_event publish_connection_event
  handle_event-Adds s mqtt_event_connected time_us h = Adds-send s.queue _ refl
  handle_event-Adds s mqtt_event_disconnected time_us h = Adds-send s.queue _ refl
  handle_event-Adds s (mqtt_event_data a) time_us h = absurd (ground arith)
  handle_event-Adds s mqtt_event_error time_us h = Adds-same s.queue _ refl
  handle_event-Adds s mqtt_event_other time_us h = Adds-same s.queue _ refl

module _ {wifi : WifiApi} {api : QueueApi} where
  pub handle_wifi_event-Adds :
      (s : Wifi.Station wifi api) (event : WifiEvent) (time_us : ℕ)
      → Adds s.queue (handle_wifi_event s event time_us).queue
  unfolding handle_wifi_event Wifi.publish_connection_event
  handle_wifi_event-Adds s wifi_event_sta_start time_us = Adds-same s.queue _ refl
  handle_wifi_event-Adds s wifi_event_sta_disconnected time_us = Adds-send s.queue _ refl
  handle_wifi_event-Adds s ip_event_sta_got_ip time_us = Adds-send s.queue _ refl
  handle_wifi_event-Adds s wifi_event_other time_us = Adds-same s.queue _ refl
  handle_wifi_event-Adds s ip_event_other time_us = Adds-same s.queue _ refl
