-- ===== src/Drivers/Analog.antt =====
-- firmware/main/drivers/AnalogInput.cpp: the slider, read through the one-shot ADC driver and scaled
-- to percent. The timer is an argument; the event queue that the driver refers to is passed through.
pub mod Setup
pub mod Report
pub mod Fits
pub mod Host
mod Examples
use iot_visual_management_sy.Prelude.{
  ℕ, ◌+◌, ◌-◌, ◌*◌, ◌/◌, ◌≡◌, min, ltb, leb, ◌==◌, ℤ, pos, negsuc, pos_part, neg_part, eqb_ℤ, Bool,
  true, false, not, ◌&&◌, ◌||◌, Option, none, some, if◌then◌else◌,
}
use iot_visual_management_sy.Event.{Event, blank, analog_changed}
use iot_visual_management_sy.Rtos.{QueueApi}
use iot_visual_management_sy.EventQueue.{EventQueue}
use iot_visual_management_sy.EventQueue

-- What the driver uses of esp_adc/adc_oneshot.h. `Adc` is the peripheral; `units` counts the units
-- that were made and not deleted.
pub record AdcApi : Type 1 where
  pub Adc : Type 0
  pub Handle : Type 0
  pub new_unit : ℕ → Adc → Option Handle × Adc
  pub config_channel : Handle → ℕ → Adc → Bool × Adc
  pub read : Handle → ℕ → Adc → Option ℤ × Adc
  pub del_unit : Handle → Adc → Adc
  pub units : Adc → ℕ
  pub units-new_unit :
      (n : ℕ) (w : Adc)
      → units (new_unit n w).1 ≡ units w + (elim (new_unit n w).0 [ none ↦ 0 | some h ↦ 1 ])
  pub units-config_channel :
      (h : Handle) (c : ℕ) (w : Adc) → units (config_channel h c w).1 ≡ units w
  pub units-read : (h : Handle) (c : ℕ) (w : Adc) → units (read h c w).1 ≡ units w
  pub units-del_unit : (h : Handle) (w : Adc) → units (del_unit h w) ≡ units w - 1

pub record AnalogInput (adc : AdcApi) : Type 0 where
  pub unit : ℕ
  pub channel : ℕ
  pub source_id : ℕ  -- uint32
  pub deadband_percent : ℕ  -- uint8
  pub adc_handle : Option adc.Handle
  pub stable_percent : ℤ  -- int32
  pub initialized : Bool
  pub initial_event_pending : Bool

-- A 12-bit reading as a percentage; a reading outside the range counts as the nearer end.
unfoldable pub raw_to_percent : ℤ → ℤ
raw_to_percent raw_value = pos (min (pos_part raw_value) 4095 * 100 / 4095)

-- `std::abs(a - b)`
abbrev pub distance : ℤ → ℤ → ℕ
distance a b =
    (pos_part a + neg_part b - (pos_part b + neg_part a))
    + (pos_part b + neg_part a - (pos_part a + neg_part b))

module _ {adc : AdcApi} where
  unfoldable pub create : ℕ → ℕ → ℕ → ℕ → AnalogInput adc
  create unit channel source deadband = record {
    unit = unit;
    channel = channel;
    source_id = source;
    deadband_percent = deadband;
    adc_handle = none;
    stable_percent = pos 0;
    initialized = false;
    initial_event_pending = true;
  }

  -- Deletes the unit, if there is one, and clears the handle: the destructor, and the failures of
  -- `initialize` behind `adc_oneshot_new_unit`.
  unfoldable pub release : AnalogInput adc → adc.Adc → AnalogInput adc × adc.Adc
  release a w = elim a.adc_handle [
    | none ↦ (a, w)
    | some h ↦ (record a { adc_handle = none }, adc.del_unit h w)
  ]

  unfoldable pub read_raw : AnalogInput adc → adc.Adc → Option ℤ × adc.Adc
  read_raw a w = elim a.adc_handle [ none ↦ (none, w) | some h ↦ adc.read h a.channel w ]

  -- `initialize` once the unit exists.
  unfoldable pub configure :
      AnalogInput adc → adc.Handle → adc.Adc → Bool × (AnalogInput adc × adc.Adc)
  configure a h w =
      let (configured, w1) = adc.config_channel h a.channel w in
      if configured
      then (let (sample, w2) = read_raw a w1 in
          elim sample [
            | none ↦ (false, release a w2)
            | some raw_value ↦ (
              true,
              (record a { stable_percent = raw_to_percent raw_value; initialized = true }, w2),
            )
          ])
      else (false, release a w1)

  unfoldable pub initialize : AnalogInput adc → adc.Adc → Bool × (AnalogInput adc × adc.Adc)
  initialize a w =
      let (made, w1) = adc.new_unit a.unit w in
      elim made [
        | none ↦ (false, (a, w1))
        | some h ↦ configure (record a { adc_handle = some h }) h w1
      ]

-- What `update` ignores: within the deadband once the initial report is out.
unfoldable pub ignored : Bool → ℤ → ℤ → ℕ → Bool
ignored pending current stable deadband =
    not pending && (eqb_ℤ current stable || ltb (distance current stable) deadband)

abbrev pub value_event : ℕ → ℤ → ℕ → Event
value_event source percent time_us = record blank {
  type = analog_changed;
  source_id = source;
  value = percent;
  sequence_id = 0;
  timestamp_ms = time_us / 1000;
}

module _ {adc : AdcApi} {api : QueueApi} where
  unfoldable pub publish_value : AnalogInput adc → EventQueue api → ℤ → ℕ → Bool × EventQueue api
  publish_value a q percent time_us = EventQueue.send q (value_event a.source_id percent time_us)

  -- `update` for the value that was read.
  unfoldable pub observe :
      AnalogInput adc → EventQueue api → ℤ → ℕ → AnalogInput adc × EventQueue api
  observe a q current time_us =
      if ignored a.initial_event_pending current a.stable_percent a.deadband_percent
      then (a, q)
      else (let (sent, q') = publish_value a q current time_us in
          (
            (if sent
                then record a { stable_percent = current; initial_event_pending = false }
                else a),
            q',
          ))

  unfoldable pub update :
      AnalogInput adc → EventQueue api → adc.Adc → ℕ → (AnalogInput adc × EventQueue api) × adc.Adc
  update a q w time_us =
      if a.initialized
      then (let (sample, w1) = read_raw a w in
          elim sample [
            | none ↦ ((a, q), w1)
            | some raw_value ↦ (observe a q (raw_to_percent raw_value) time_us, w1)
          ])
      else ((a, q), w)
