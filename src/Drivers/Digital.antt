-- ===== src/Drivers/Digital.antt =====
-- firmware/main/drivers/DigitalInput.cpp: a debounced, active-low digital input. The GPIO level and
-- the timer are arguments; the event queue that the driver refers to is passed through.
pub mod Update
pub mod Debounce
pub mod Promise
mod Examples
use iot_visual_management_sy.Prelude.{
  ℕ, ◌/◌, ◌==◌, leb, of_bool, sub64, Bool, true, false, differ, ◌&&◌, ◌||◌, if◌then◌else◌,
}
use iot_visual_management_sy.Event.{Event, EventType, blank}
use iot_visual_management_sy.Rtos.{QueueApi}
use iot_visual_management_sy.EventQueue.{EventQueue}
use iot_visual_management_sy.EventQueue

pub record DigitalInput : Type 0 where
  pub pin : ℕ
  pub source_id : ℕ  -- uint32
  pub active_event : EventType
  pub inactive_event : EventType
  pub debounce_ms : ℕ  -- uint32
  pub last_raw_state : Bool
  pub stable_state : Bool
  pub initial_event_pending : Bool
  pub last_change_time_ms : ℕ  -- uint64

abbrev pub create : ℕ → ℕ → EventType → EventType → ℕ → DigitalInput
create pin source active inactive debounce = record {
  pin = pin;
  source_id = source;
  active_event = active;
  inactive_event = inactive;
  debounce_ms = debounce;
  last_raw_state = false;
  stable_state = false;
  initial_event_pending = true;
  last_change_time_ms = 0;
}

-- One poll: the level of the pin, and the timer, in microseconds, at the two calls of
-- `currentTimeMs`: before the debounce test, and in `publishStateChange`.
pub record Poll : Type 0 where
  pub level : ℕ
  pub time_us : ℕ
  pub publish_time_us : ℕ

-- LOW means that the control is active.
abbrev pub raw : ℕ → Bool
raw level = level == 0

abbrev pub to_ms : ℕ → ℕ
to_ms time_us = time_us / 1000

-- The first argument is `gpio_config(&config) == ESP_OK`.
unfoldable pub initialize : Bool → ℕ → ℕ → DigitalInput → Bool × DigitalInput
initialize configured level time_us d =
    if configured
    then (
      true,
      record d {
        last_raw_state = raw level;
        stable_state = raw level;
        last_change_time_ms = to_ms time_us;
      },
    )
    else (false, d)

-- A raw transition restarts the debounce timer.
unfoldable pub watch : DigitalInput → Bool → ℕ → DigitalInput
watch d raw_state now =
    if differ raw_state d.last_raw_state
    then record d { last_raw_state = raw_state; last_change_time_ms = now }
    else d

-- A new state is accepted after it has remained stable long enough.
unfoldable pub due : DigitalInput → Bool → ℕ → Bool
due d raw_state now =
    (d.initial_event_pending || differ raw_state d.stable_state)
    && leb d.debounce_ms (sub64 now d.last_change_time_ms)

unfoldable pub state_event : DigitalInput → Bool → ℕ → Event
state_event d new_state time_us = record blank {
  type = (if new_state then d.active_event else d.inactive_event);
  source_id = d.source_id;
  value = of_bool new_state;
  timestamp_ms = to_ms time_us;
  sequence_id = 0;
}

module _ {api : QueueApi} where
  unfoldable pub publish_state_change :
      DigitalInput → EventQueue api → Bool → ℕ → Bool × EventQueue api
  unfolding state_event
  publish_state_change d q new_state time_us = EventQueue.send q (state_event d new_state time_us)

  -- The body of `update` for the level and the times that were read.
  unfoldable pub accept :
      DigitalInput → EventQueue api → Bool → ℕ → ℕ → DigitalInput × EventQueue api
  accept d q raw_state now publish_us =
      if due d raw_state now
      then (let (sent, q') = publish_state_change d q raw_state publish_us in
          (
            (if sent
                then record d { stable_state = raw_state; initial_event_pending = false }
                else d),
            q',
          ))
      else (d, q)

  unfoldable pub update : DigitalInput → EventQueue api → Poll → DigitalInput × EventQueue api
  unfolding watch accept
  update d q p =
      let raw_state = raw p.level in
      let now = to_ms p.time_us in accept (watch d raw_state now) q raw_state now p.publish_time_us
