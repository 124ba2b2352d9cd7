-- ===== src/Event.antt =====
-- firmware/main/events/Event.hpp: the event types and the event record of every module.
use iot_visual_management_sy.Prelude.{ℕ, ℤ, pos}

pub data EventType : Type 0 where
  none : EventType
  button_pressed button_released toggle_changed encoder_changed analog_changed : EventType
  remote_state_update set_output : EventType
  wifi_connected wifi_disconnected mqtt_connected mqtt_disconnected : EventType
  sync_requested fault_detected heartbeat : EventType

pub EventType-discrete : Discrete EventType
EventType-discrete = hlevel

pub record Event : Type 0 where
  pub type : EventType
  pub source_id : ℕ  -- uint32
  pub value : ℤ  -- int32
  pub timestamp_ms : ℕ  -- uint64
  pub sequence_id : ℕ  -- uint32

-- The member initialisers: what `Event event;` and `outputEvent = {}` hold.
abbrev pub blank : Event
blank = record {
  type = EventType.none;
  source_id = 0;
  value = pos 0;
  timestamp_ms = 0;
  sequence_id = 0;
}
