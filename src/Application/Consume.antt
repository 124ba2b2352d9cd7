-- ===== src/Application/Consume.antt =====
-- What a round of the task does to the logical state: it handles the event that it received, and
-- nothing else. The heartbeat says nothing of the state.
use iot_visual_management_sy.Prelude.{
  ℕ, ◌/◌, ◌≡◌, refl, ◌∙◌, ap, next32, ℤ, Option, none, some, Bytes, Bool-cases, inl, inr,
}
use iot_visual_management_sy.Event.{Event}
use iot_visual_management_sy.Rtos.{MutexApi, QueueApi}
use iot_visual_management_sy.EventQueue
use iot_visual_management_sy.EventQueue.Fifo.{of_option}
use iot_visual_management_sy.StateManager
use iot_visual_management_sy.StateManager.{StateManager}
use iot_visual_management_sy.StateManager.Latest.{handle_all}
use iot_visual_management_sy.Output
use iot_visual_management_sy.Uplink.{Uplink}
use iot_visual_management_sy.Application.{
  Application, Task, Round, should_publish, flush_if_any, restore, process_event, process_received,
  retry_and_beat, run_round, heartbeat_event, heartbeat_due,
}
use iot_visual_management_sy.Application.Lit.{
  flush_if_any-SameManagers, publish_or_buffer-SameManagers, restore-SameManagers,
}

heartbeat_silent :
    (s : StateManager) (now : ℕ) (free_heap : ℤ)
    → StateManager.handle_event s (heartbeat_event now free_heap) ≡ s
unfolding StateManager.handle_event
heartbeat_silent s now free_heap = refl

module _ {u : Uplink} {m : MutexApi} (device_id : Bytes) where
  process_event-state :
      (a : Application u m) (e : Event)
      → (process_event device_id a e).state_manager ≡ StateManager.handle_event a.state_manager e
  unfolding process_event
  process_event-state a e =
      let b = restore device_id a e.type in
      let same = (restore-SameManagers device_id a e.type).state in
      let c = record b {
        state_manager = StateManager.handle_event b.state_manager e;
        output_manager = Output.handle_event b.output_manager e;
      } in
      let d = record c { next_sequence_id = next32 c.next_sequence_id } in
      let e' = record e { sequence_id = c.next_sequence_id } in
      let handled = ap (λ s. StateManager.handle_event s e) same in
      elim (Bool-cases (should_publish e.type)) [
        | inl up ↦ rw up ((publish_or_buffer-SameManagers device_id d e').state ∙ handled)
        | inr other ↦ rw other handled
      ]

  process_received-state :
      (a : Application u m) (event : Option Event)
      → (process_received device_id a event).state_manager
        ≡ handle_all a.state_manager (of_option event)
  unfolding handle_all
  process_received-state a none = refl
  process_received-state a (some e) = process_event-state a e

  retry_and_beat-state :
      (t : Task u m) (now : ℕ) (free_heap : ℤ)
      → (retry_and_beat device_id t now free_heap).application.state_manager
        ≡ t.application.state_manager
  retry_and_beat-state t now free_heap =
      let a = flush_if_any device_id t.application in
      let same = (flush_if_any-SameManagers device_id t.application).state in
      elim (Bool-cases (heartbeat_due now t.last_heartbeat_ms)) [
        | inl due ↦ rw due (
            process_event-state a (heartbeat_event now free_heap)
            ∙ heartbeat_silent a.state_manager now free_heap
            ∙ same)
        | inr early ↦ rw early same
      ]

module _ {u : Uplink} {m : MutexApi} {api : QueueApi} (device_id : Bytes) where
  -- A round handles the event at the front of the queue, if there is one, and takes it off.
  pub run_round-state :
      (t : Task u m) (r : Round api)
      → ((run_round device_id t r).0.application.state_manager
          ≡ handle_all t.application.state_manager (of_option (EventQueue.receive r.queue).0))
        × ((run_round device_id t r).1 ≡ (EventQueue.receive r.queue).1)
  unfolding run_round
  run_round-state t r =
      let event = (EventQueue.receive r.queue).0 in
      let a = process_received device_id t.application event in
      (
        retry_and_beat-state device_id (record t { application = a }) (r.time_us / 1000) r.free_heap
            ∙ process_received-state device_id t.application event,
        refl,
      )
