-- ===== src/System/Inputs.antt =====
-- The inputs on the whole: their wiring, and what one polling round passes on.
use iot_visual_management_sy.Prelude.{◌≡◌, ◌∙◌, Bool, List, Bytes, arith}
use iot_visual_management_sy.Rtos.{QueueApi, MutexApi}
use iot_visual_management_sy.EventQueue.{EventQueue}
use iot_visual_management_sy.Drivers.Digital
use iot_visual_management_sy.Drivers.Encoder
use iot_visual_management_sy.Drivers.Encoder.Report.{update_source}
use iot_visual_management_sy.Drivers.Analog.{AdcApi}
use iot_visual_management_sy.Input
use iot_visual_management_sy.Input.{InputManager, Readings, poll_round}
use iot_visual_management_sy.Uplink.{Uplink, Message}
use iot_visual_management_sy.Application.{Application}
use iot_visual_management_sy.Application.Sequence.{OrderedNow}
use iot_visual_management_sy.System.Emission.{
  IsWired, digital_value, analog_value, digital-IsWired, digital-Emits, encoder-Emits, analog-Emits,
  analog_source,
}
use iot_visual_management_sy.System.Carry.{
  Carries, Carries-button, Carries-toggle, Carries-encoder, Carries-analog,
}

-- The inputs have the sources 1 to 4.
pub record AreWired {adc : AdcApi} (i : InputManager adc) : Type 0 where
  pub button : IsWired 1 i.button_input
  pub toggle : IsWired 2 i.toggle_input
  pub encoder : i.rotary_encoder.source_id ≡ 3
  pub analog : i.analog_input.source_id ≡ 4

pub poll_round-AreWired :
    {adc : AdcApi} {api : QueueApi} (i : InputManager adc) (q : EventQueue api) (w : adc.Adc)
    (r : Readings)
    → AreWired i
    → AreWired (poll_round i q w r).0.0
unfolding poll_round
poll_round-AreWired i q w r h =
    let q1 = (Digital.update i.button_input q r.button).1 in
    let q2 = (Digital.update i.toggle_input q1 r.toggle).1 in
    let q3 = (Encoder.update i.rotary_encoder q2 r.encoder).1 in
    record {
      button = digital-IsWired 1 i.button_input q r.button h.button;
      toggle = digital-IsWired 2 i.toggle_input q1 r.toggle h.toggle;
      encoder = update_source i.rotary_encoder q2 r.encoder ∙ h.encoder;
      analog = analog_source i.analog_input q3 w r.analog_time_us ∙ h.analog;
    }

module _ {u : Uplink} {m : MutexApi} {adc : AdcApi} {api : QueueApi} (device_id : Bytes)
    (before : List Message) where
  -- The values that the inputs have reported are on their way.
  abbrev pub CarriesInputs : InputManager adc → EventQueue api → Application u m → Type 0
  CarriesInputs i q a =
      Carries device_id before (digital_value i.button_input) (digital_value i.toggle_input)
        (analog_value i.analog_input) q a

  pub poll_round-CarriesInputs :
      (i : InputManager adc) (q : EventQueue api) (w : adc.Adc) (r : Readings) (a : Application u m)
      → AreWired i
      → CarriesInputs i q a
      → CarriesInputs (poll_round i q w r).0.0 (poll_round i q w r).0.1 a
  unfolding poll_round
  poll_round-CarriesInputs i q w r a h c =
      let q1 = (Digital.update i.button_input q r.button).1 in
      let q2 = (Digital.update i.toggle_input q1 r.toggle).1 in
      let q3 = (Encoder.update i.rotary_encoder q2 r.encoder).1 in
      let b = digital-Emits 1 i.button_input q r.button (omega arith) h.button in
      let t = digital-Emits 2 i.toggle_input q1 r.toggle (omega arith) h.toggle in
      let e = encoder-Emits 3 i.rotary_encoder q2 r.encoder (omega arith) h.encoder in
      let v = analog-Emits 4 i.analog_input q3 w r.analog_time_us (omega arith) h.analog in
      Carries-analog device_id before _ _ _ _ q3 _ a v (
        Carries-encoder device_id before _ _ _ _ _ q2 q3 a e.1 (
          Carries-toggle device_id before _ _ _ _ q1 q2 a t
            (Carries-button device_id before _ _ _ _ q q1 a b c)))

module _ {u : Uplink} {m : MutexApi} (device_id : Bytes) (before : List Message) where
  pub OrderedNow-world :
      (a : Application u m) (w : u.World)
      → u.handed w ≡ u.handed a.world
      → OrderedNow device_id before a
      → OrderedNow device_id before (record a { world = w })
  OrderedNow-world a w same o = record {
    sent = o.sent;
    handed = same ∙ o.handed;
    ascends = o.ascends;
    valid = o.valid;
  }

pub start_inputs :
    {adc : AdcApi} (i : InputManager adc) (created : Bool)
    → (Input.start created i).1 ≡ record i { task_started = (Input.start created i).1.task_started }
unfolding Input.start
start_inputs i created = ground arith
