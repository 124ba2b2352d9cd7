-- ===== src/Drivers/Analog/Fits.antt =====
-- How much a poll of the analog input adds to the queue.
use iot_visual_management_sy.Prelude.{ℕ, ℤ, arith, Option-cases, Bool-cases, inl, inr}
use iot_visual_management_sy.Rtos.{QueueApi}
use iot_visual_management_sy.EventQueue.{EventQueue}
use iot_visual_management_sy.EventQueue.Fifo.{Fits, send-Fits}
use iot_visual_management_sy.Drivers.Analog.{
  AdcApi, AnalogInput, raw_to_percent, ignored, read_raw, publish_value, observe, update,
}

module _ {adc : AdcApi} {api : QueueApi} where
  observe-Fits :
      (a : AnalogInput adc) (q : EventQueue api) (c : ℤ) (time n : ℕ)
      → Fits n q
      → Fits n (observe a q c time).1
  unfolding observe publish_value
  observe-Fits a q c time n h =
      elim (Bool-cases (ignored a.initial_event_pending c a.stable_percent a.deadband_percent)) [
        | inl near ↦ rw near h
        | inr far ↦ rw far (send-Fits q _ n h)
      ]

  -- A poll sends one event or none.
  pub update-Fits :
      (a : AnalogInput adc) (q : EventQueue api) (w : adc.Adc) (time n : ℕ)
      → Fits n q
      → Fits n (update a q w time).0.1
  unfolding update
  update-Fits a q w time n h = elim (Bool-cases a.initialized) [
    | inr not_yet ↦ rw not_yet h
    | inl ready ↦ elim (Option-cases (read_raw a w).0) [
      | inl unread ↦ ground arith
      | inr (raw, sample) ↦ ground (arith, observe-Fits a q (raw_to_percent raw) time n h)
    ]
  ]
