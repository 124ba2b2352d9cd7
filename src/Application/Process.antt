-- ===== src/Application/Process.antt =====
-- `processEvent` by the kind of event: a connection notice, an event that goes upstream, another.
use iot_visual_management_sy.Prelude.{
  ◌≡◌, refl, next32, true, false, Bytes, arith, inl, inr, Bool-cases,
}
use iot_visual_management_sy.Event.{Event, EventType, mqtt_connected}
use iot_visual_management_sy.Rtos.{MutexApi}
use iot_visual_management_sy.Store.Pure.{Ready, size_lem}
use iot_visual_management_sy.StateManager
use iot_visual_management_sy.Output
use iot_visual_management_sy.Uplink.{Uplink}
use iot_visual_management_sy.Application.{
  Application, should_publish, is_mqtt_connected, flush_offline_events, publish_or_buffer, restore,
  process_event,
}

notice_only : (t : EventType) → should_publish t ≡ true → is_mqtt_connected t ≡ false
notice_only t h = ground arith

the_notice : (t : EventType) → is_mqtt_connected t ≡ true → t ≡ mqtt_connected
the_notice t h = ground arith

module _ {u : Uplink} {m : MutexApi} (device_id : Bytes) where
  -- The state and the output after an event; all else as before.
  abbrev pub updated : Application u m → Event → Application u m
  updated a e = record a {
    state_manager = StateManager.handle_event a.state_manager e;
    output_manager = Output.handle_event a.output_manager e;
  }

  -- The event with its number, and the application that has given the number out.
  abbrev pub numbered : Application u m → Event → Event
  numbered a e = record e { sequence_id = a.next_sequence_id }

  abbrev pub advanced : Application u m → Application u m
  advanced a = record a { next_sequence_id = next32 a.next_sequence_id }

  pub data Processed (a : Application u m) (e : Event) (b : Application u m) : Type 0 where
    restored :
        e.type ≡ mqtt_connected → b ≡ updated (flush_offline_events device_id a) e → Processed a e b
    upstream :
        should_publish e.type ≡ true
        → b ≡ publish_or_buffer device_id (advanced (updated a e)) (numbered a e)
        → Processed a e b
    local : should_publish e.type ≡ false → b ≡ updated a e → Processed a e b

  -- With the mutex of the buffer free, every event is one of three: the notice of a connection
  -- flushes the buffer and updates the state, an event that goes upstream updates the state, takes
  -- the next number and is published or buffered, and any other only updates the state.
  pub process_event_lem :
      (a : Application u m) (e : Event)
      → Ready a.offline_store
      → Processed a e (process_event device_id a e)
  unfolding process_event restore
  process_event_lem a e r = elim (Bool-cases (should_publish e.type)) [
    | inl up ↦ upstream up (rw (notice_only e.type up, up) refl)
    | inr no_up ↦ elim (Bool-cases (is_mqtt_connected e.type)) [
      | inl notice ↦
          restored (the_notice e.type notice) (rw (notice, no_up, size_lem a.offline_store r) refl)
      | inr other ↦ local no_up (rw (other, no_up) refl)
    ]
  ]
