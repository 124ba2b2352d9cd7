-- ===== src/Application/Upheld.antt =====
-- What holds of the way to the broker while the application uses it: a property that each call of
-- the uplink keeps is kept by a whole round.
use iot_visual_management_sy.Prelude.{
  ℕ, zero, suc, length, ℤ, Option, none, some, Bytes, Bool-cases, Option-cases, is_nil, inl, inr,
  next32,
}
use iot_visual_management_sy.Config.{firmware_version}
use iot_visual_management_sy.Event.{Event, EventType}
use iot_visual_management_sy.Rtos.{MutexApi}
use iot_visual_management_sy.Store
use iot_visual_management_sy.StateManager
use iot_visual_management_sy.Output
use iot_visual_management_sy.Uplink.{Uplink, Message}
use iot_visual_management_sy.Application.{
  Application, Task, should_publish, is_heartbeat, is_mqtt_connected, message_of, offer, buffer,
  flush_round, flush_loop, flush_offline_events, flush_if_any, publish_now, publish_or_buffer,
  restore, process_event, process_received, retry_and_beat, heartbeat_event, heartbeat_due,
}

module _ (u : Uplink) (device_id : Bytes) (P : u.World → Type 0)
    (serialized : (e : Event) (d v : Bytes) (w : u.World) → P w → P (u.serialize e d v w).1)
    (published : (t : Message) (w : u.World) → P w → P (u.publish t w).1) where
  pub offered : (e : Event) (w : u.World) → P w → P (offer u device_id e w).1
  unfolding offer
  offered e w h =
      let made = serialized e device_id firmware_version w h in
      let text = u.serialize e device_id firmware_version w in
      elim (Bool-cases (is_nil text.0)) [
        | inl empty ↦ rw empty made
        | inr some_text ↦ rw some_text (published (message_of device_id text.0) text.1 made)
      ]

module _ {u : Uplink} {m : MutexApi} (device_id : Bytes) (P : u.World → Type 0)
    (asked : (w : u.World) → P w → P (u.is_connected w).1)
    (serialized : (e : Event) (d v : Bytes) (w : u.World) → P w → P (u.serialize e d v w).1)
    (published : (t : Message) (w : u.World) → P w → P (u.publish t w).1) where
  buffered : (a : Application u m) (e : Event) → P a.world → P (buffer a e).world
  unfolding buffer
  buffered a e h = elim (Bool-cases (is_heartbeat e.type)) [
    | inl beat ↦ rw beat h
    | inr other ↦ rw other h
  ]

  flushed_once : (a : Application u m) → P a.world → P (flush_round device_id a).0.world
  unfolding flush_round
  flushed_once a h = elim (Option-cases (Store.peek a.offline_store).0) [
    | inl nothing ↦ rw (flush_round, nothing) h
    | inr (e, front) ↦
        let o = offered u device_id P serialized published e a.world h in
        elim (Option-cases (offer u device_id e a.world).0) [
          | inl no_text ↦ rw (flush_round, front, no_text) o
          | inr (taken, is) ↦ elim (Bool-cases taken) [
            | inl yes_taken ↦ rw (flush_round, front, is, yes_taken) o
            | inr refused ↦ rw (flush_round, front, is, refused) o
          ]
        ]
  ]

  flushed_all : (fuel : ℕ) (a : Application u m) → P a.world → P (flush_loop device_id fuel a).world
  unfolding flush_loop
  flushed_all zero a h = h
  flushed_all (suc fuel) a h =
      let once = flushed_once a h in
      elim (Bool-cases (flush_round device_id a).1) [
        | inl more ↦ rw (flush_loop, more) (flushed_all fuel (flush_round device_id a).0 once)
        | inr done ↦ rw (flush_loop, done) once
      ]

  flushed : (a : Application u m) → P a.world → P (flush_offline_events device_id a).world
  unfolding flush_offline_events
  flushed a h =
      let h1 = asked a.world h in
      let a1 = record a { world = (u.is_connected a.world).1 } in
      elim (Bool-cases (u.is_connected a.world).0) [
        | inl up ↦ rw up (flushed_all (suc (length a.offline_store.events)) a1 h1)
        | inr down ↦ rw down h1
      ]

  pub flushed_if_any : (a : Application u m) → P a.world → P (flush_if_any device_id a).world
  unfolding flush_if_any
  flushed_if_any a h = elim (Bool-cases (Store.empty a.offline_store).0) [
    | inl nothing ↦ rw nothing h
    | inr some_left ↦
        rw some_left (flushed (record a { offline_store = (Store.empty a.offline_store).1 }) h)
  ]

  published_now :
      (a : Application u m) (e : Event) → P a.world → P (publish_now device_id a e).0.world
  unfolding publish_now
  published_now a e h =
      let w = (u.is_connected a.world).1 in
      let h1 = asked a.world h in
      elim (Bool-cases (Store.empty a.offline_store).0) [
        | inr older ↦ rw older h
        | inl nothing ↦ elim (Bool-cases (u.is_connected a.world).0) [
          | inl up ↦ rw (nothing, up) (offered u device_id P serialized published e w h1)
          | inr down ↦ rw (nothing, down) h1
        ]
      ]

  published_or_buffered :
      (a : Application u m) (e : Event) → P a.world → P (publish_or_buffer device_id a e).world
  unfolding publish_or_buffer
  published_or_buffered a e h =
      let b = flush_if_any device_id a in
      let tried = published_now b e (flushed_if_any a h) in
      elim (Bool-cases (publish_now device_id b e).1) [
        | inl taken ↦ rw taken tried
        | inr kept ↦ rw kept (buffered (publish_now device_id b e).0 e tried)
      ]

  restored : (a : Application u m) (t : EventType) → P a.world → P (restore device_id a t).world
  unfolding restore
  restored a t h = elim (Bool-cases (is_mqtt_connected t)) [
    | inl notice ↦
        rw notice (flushed (record a { offline_store = (Store.size a.offline_store).1 }) h)
    | inr other ↦ rw other h
  ]

  processed : (a : Application u m) (e : Event) → P a.world → P (process_event device_id a e).world
  unfolding process_event
  processed a e h =
      let b = restore device_id a e.type in
      let h1 = restored a e.type h in
      let c = record b {
        state_manager = StateManager.handle_event b.state_manager e;
        output_manager = Output.handle_event b.output_manager e;
      } in
      let d = record c { next_sequence_id = next32 c.next_sequence_id } in
      elim (Bool-cases (should_publish e.type)) [
        | inl up ↦
            rw up (published_or_buffered d (record e { sequence_id = c.next_sequence_id }) h1)
        | inr other ↦ rw other h1
      ]

  pub received :
      (a : Application u m) (event : Option Event)
      → P a.world
      → P (process_received device_id a event).world
  received a none h = h
  received a (some e) h = processed a e h

  pub beaten :
      (t : Task u m) (now : ℕ) (free_heap : ℤ)
      → P t.application.world
      → P (retry_and_beat device_id t now free_heap).application.world
  beaten t now free_heap h =
      let a = flush_if_any device_id t.application in
      let h1 = flushed_if_any t.application h in
      elim (Bool-cases (heartbeat_due now t.last_heartbeat_ms)) [
        | inl due ↦ rw due (processed a (heartbeat_event now free_heap) h1)
        | inr early ↦ rw early h1
      ]
