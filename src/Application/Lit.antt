-- ===== src/Application/Lit.antt =====
-- The LED while the task runs: publishing and buffering leave the state, the output and
-- the next number alone, so the
-- LED stands for the logical output after every event.
use iot_visual_management_sy.Prelude.{
  ℕ, zero, suc, ◌/◌, ◌≡◌, refl, ◌∙◌, length, next32, ℤ, Option, none, some, Bytes, arith,
  Bool-cases, Option-cases, inl, inr,
}
use iot_visual_management_sy.Event.{Event, EventType}
use iot_visual_management_sy.Rtos.{MutexApi, QueueApi}
use iot_visual_management_sy.EventQueue
use iot_visual_management_sy.Store
use iot_visual_management_sy.StateManager
use iot_visual_management_sy.Output
use iot_visual_management_sy.Output.Shown.{Shows, handle_event-Shows}
use iot_visual_management_sy.Uplink.{Uplink}
use iot_visual_management_sy.Application.{
  Application, Task, Round, should_publish, is_mqtt_connected, buffer, flush_round, flush_loop,
  flush_offline_events, flush_if_any, publish_now, publish_or_buffer, restore, process_event,
  process_received, retry_and_beat, run_round, heartbeat_event, heartbeat_due,
}

module _ {u : Uplink} {m : MutexApi} where
  -- The LED shows the output of the application's state.
  abbrev pub IsLit : Application u m → Type 0
  IsLit a = Shows a.output_manager a.state_manager

  pub record SameManagers (a b : Application u m) : Type 0 where
    pub state : b.state_manager ≡ a.state_manager
    pub output : b.output_manager ≡ a.output_manager
    pub number : b.next_sequence_id ≡ a.next_sequence_id

  SameManagers-IsLit : (a b : Application u m) → SameManagers a b → IsLit a → IsLit b
  SameManagers-IsLit a b same h = rw (same.state, same.output) h

  SameManagers-trans :
      (a b c : Application u m) → SameManagers a b → SameManagers b c → SameManagers a c
  SameManagers-trans a b c f g = record {
    state = g.state ∙ f.state;
    output = g.output ∙ f.output;
    number = g.number ∙ f.number;
  }

  SameManagers-refl : (a : Application u m) → SameManagers a a
  SameManagers-refl a = record { state = refl; output = refl; number = refl }

  buffer-SameManagers : (a : Application u m) (e : Event) → SameManagers a (buffer a e)
  unfolding buffer
  buffer-SameManagers a e = ground arith

module _ {u : Uplink} {m : MutexApi} (device_id : Bytes) where
  flush_round-SameManagers : (a : Application u m) → SameManagers a (flush_round device_id a).0
  unfolding flush_round
  flush_round-SameManagers a = elim (Option-cases (Store.peek a.offline_store).0) [
    | inl nothing ↦ ground arith
    | inr (e, front) ↦ ground arith
  ]

  flush_loop-SameManagers :
      (fuel : ℕ) (a : Application u m) → SameManagers a (flush_loop device_id fuel a)
  unfolding flush_loop
  flush_loop-SameManagers zero a = SameManagers-refl a
  flush_loop-SameManagers (suc fuel) a =
      let once = flush_round-SameManagers a in
      let b = (flush_round device_id a).0 in
      elim (Bool-cases (flush_round device_id a).1) [
        | inl more ↦
            rw (flush_loop, more) (SameManagers-trans a b _ once (flush_loop-SameManagers fuel b))
        | inr done ↦ rw (flush_loop, done) once
      ]

  flush_offline_events-SameManagers :
      (a : Application u m) → SameManagers a (flush_offline_events device_id a)
  unfolding flush_offline_events
  flush_offline_events-SameManagers a =
      let b = record a { world = (u.is_connected a.world).1 } in
      let looped = flush_loop-SameManagers (suc (length a.offline_store.events)) b in
      elim (Bool-cases (u.is_connected a.world).0) [
        | inl up ↦
            rw up (record { state = looped.state; output = looped.output; number = looped.number })
        | inr down ↦ rw down (record { state = refl; output = refl; number = refl })
      ]

  pub flush_if_any-SameManagers : (a : Application u m) → SameManagers a (flush_if_any device_id a)
  unfolding flush_if_any
  flush_if_any-SameManagers a =
      let b = record a { offline_store = (Store.empty a.offline_store).1 } in
      let flushed = flush_offline_events-SameManagers b in
      elim (Bool-cases (Store.empty a.offline_store).0) [
        | inl nothing ↦ rw nothing (record { state = refl; output = refl; number = refl })
        | inr some_left ↦
            rw some_left
              (record { state = flushed.state; output = flushed.output; number = flushed.number })
      ]

  publish_now-SameManagers :
      (a : Application u m) (e : Event) → SameManagers a (publish_now device_id a e).0
  unfolding publish_now
  publish_now-SameManagers a e = ground arith

  pub publish_or_buffer-SameManagers :
      (a : Application u m) (e : Event) → SameManagers a (publish_or_buffer device_id a e)
  unfolding publish_or_buffer
  publish_or_buffer-SameManagers a e =
      let b = flush_if_any device_id a in
      let c = (publish_now device_id b e).0 in
      let tried =
        SameManagers-trans a b c (flush_if_any-SameManagers a) (publish_now-SameManagers b e) in
      elim (Bool-cases (publish_now device_id b e).1) [
        | inl taken ↦ rw taken tried
        | inr kept ↦ rw kept (SameManagers-trans a c _ tried (buffer-SameManagers c e))
      ]

  pub restore-SameManagers :
      (a : Application u m) (t : EventType) → SameManagers a (restore device_id a t)
  unfolding restore
  restore-SameManagers a t =
      let b = record a { offline_store = (Store.size a.offline_store).1 } in
      let flushed = flush_offline_events-SameManagers b in
      elim (Bool-cases (is_mqtt_connected t)) [
        | inl notice ↦
            rw notice
              (record { state = flushed.state; output = flushed.output; number = flushed.number })
        | inr other ↦ rw other (SameManagers-refl a)
      ]

  process_event-IsLit :
      (a : Application u m) (e : Event) → IsLit a → IsLit (process_event device_id a e)
  unfolding process_event
  process_event-IsLit a e h =
      let b = restore device_id a e.type in
      let lit = SameManagers-IsLit a b (restore-SameManagers a e.type) h in
      let c = record b {
        state_manager = StateManager.handle_event b.state_manager e;
        output_manager = Output.handle_event b.output_manager e;
      } in
      let shown : IsLit c = handle_event-Shows b.output_manager b.state_manager e lit in
      let d = record c { next_sequence_id = next32 c.next_sequence_id } in
      elim (Bool-cases (should_publish e.type)) [
        | inl up ↦ rw up (
            SameManagers-IsLit d _
              (publish_or_buffer-SameManagers d (record e { sequence_id = c.next_sequence_id }))
              shown)
        | inr other ↦ rw other shown
      ]

  process_received-IsLit :
      (a : Application u m) (event : Option Event)
      → IsLit a
      → IsLit (process_received device_id a event)
  process_received-IsLit a none h = h
  process_received-IsLit a (some e) h = process_event-IsLit a e h

  retry_and_beat-IsLit :
      (t : Task u m) (now : ℕ) (free_heap : ℤ)
      → IsLit t.application
      → IsLit (retry_and_beat device_id t now free_heap).application
  retry_and_beat-IsLit t now free_heap h =
      let a = flush_if_any device_id t.application in
      let lit = SameManagers-IsLit t.application a (flush_if_any-SameManagers t.application) h in
      elim (Bool-cases (heartbeat_due now t.last_heartbeat_ms)) [
        | inl due ↦ rw due (process_event-IsLit a (heartbeat_event now free_heap) lit)
        | inr early ↦ rw early lit
      ]

module _ {u : Uplink} {m : MutexApi} {api : QueueApi} (device_id : Bytes) where
  pub run_round-IsLit :
      (t : Task u m) (r : Round api)
      → IsLit t.application
      → IsLit (run_round device_id t r).0.application
  unfolding run_round
  run_round-IsLit t r h =
      let a = process_received device_id t.application (EventQueue.receive r.queue).0 in
      retry_and_beat-IsLit device_id (record t { application = a }) (r.time_us / 1000) r.free_heap
        (process_received-IsLit device_id t.application (EventQueue.receive r.queue).0 h)
