-- ===== src/Input.antt =====
-- firmware/main/app/InputManager.cpp: the four inputs, their initialization and the polling round.
-- The manager refers to the drivers, which share one event queue.
pub mod Round
pub mod Startup
mod Examples
use iot_visual_management_sy.Prelude.{ℕ, Bool, true, false, if◌then◌else◌}
use iot_visual_management_sy.Rtos.{QueueApi}
use iot_visual_management_sy.EventQueue.{EventQueue}
use iot_visual_management_sy.Drivers.Digital.{DigitalInput}
use iot_visual_management_sy.Drivers.Digital
use iot_visual_management_sy.Drivers.Encoder.{RotaryEncoder}
use iot_visual_management_sy.Drivers.Encoder
use iot_visual_management_sy.Drivers.Analog.{AdcApi, AnalogInput}
use iot_visual_management_sy.Drivers.Analog

pub record InputManager (adc : AdcApi) : Type 0 where
  pub button_input : DigitalInput
  pub toggle_input : DigitalInput
  pub rotary_encoder : RotaryEncoder
  pub analog_input : AnalogInput adc
  pub task_started : Bool  -- taskHandle_ != nullptr

-- What the calls of `initialize` read: for each pin driver the success of `gpio_config`, the levels,
-- and the timer in microseconds.
pub record Setup : Type 0 where
  pub button_configured : Bool
  pub button_level : ℕ
  pub button_time_us : ℕ
  pub toggle_configured : Bool
  pub toggle_level : ℕ
  pub toggle_time_us : ℕ
  pub encoder_configured : Bool
  pub encoder_level_a : ℕ
  pub encoder_level_b : ℕ

-- What one polling round reads.
pub record Readings : Type 0 where
  pub button : Digital.Poll
  pub toggle : Digital.Poll
  pub encoder : Encoder.Poll
  pub analog_time_us : ℕ

module _ {adc : AdcApi} where
  -- The first failure ends it.
  unfoldable pub initialize :
      InputManager adc → Setup → adc.Adc → Bool × (InputManager adc × adc.Adc)
  initialize i s w =
      let (button_done, b) =
        Digital.initialize s.button_configured s.button_level s.button_time_us i.button_input in
      let i1 = record i { button_input = b } in
      if button_done
      then (let (toggle_done, t) =
            Digital.initialize s.toggle_configured s.toggle_level s.toggle_time_us
              i1.toggle_input in
          let i2 = record i1 { toggle_input = t } in
          if toggle_done
          then (let (encoder_done, e) =
                Encoder.initialize s.encoder_configured s.encoder_level_a s.encoder_level_b
                  i2.rotary_encoder in
              let i3 = record i2 { rotary_encoder = e } in
              if encoder_done
              then (let (analog_done, r) = Analog.initialize i3.analog_input w in
                  (analog_done, (record i3 { analog_input = r.0 }, r.1)))
              else (false, (i3, w)))
          else (false, (i2, w)))
      else (false, (i1, w))

  -- The argument is `xTaskCreate(...) == pdPASS`.
  unfoldable pub start : Bool → InputManager adc → Bool × InputManager adc
  start created i =
      if i.task_started then (true, i) else (created, record i { task_started = created })

module _ {adc : AdcApi} {api : QueueApi} where
  -- One round of `run`, without the delay at its end.
  unfoldable pub poll_round :
      InputManager adc
      → EventQueue api
      → adc.Adc
      → Readings
      → (InputManager adc × EventQueue api) × adc.Adc
  poll_round i q w r =
      let (b, q1) = Digital.update i.button_input q r.button in
      let (t, q2) = Digital.update i.toggle_input q1 r.toggle in
      let (e, q3) = Encoder.update i.rotary_encoder q2 r.encoder in
      let ((a, q4), w1) = Analog.update i.analog_input q3 w r.analog_time_us in
      (
        (record i { button_input = b; toggle_input = t; rotary_encoder = e; analog_input = a }, q4),
        w1,
      )
