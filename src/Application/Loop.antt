-- ===== src/Application/Loop.antt =====
-- The task's loop: order over any number of rounds.
use iot_visual_management_sy.Prelude.{
  ℕ, ◌+◌, ◌*◌, ◌/◌, ◌≤◌, ◌<◌, ◌≡◌, sym, ap, subst, length, u32_mod, ℤ, List, [], ◌∷◌, append-nil,
  Option, none, some, Bytes, arith, Bool-cases, inl, inr,
}
use iot_visual_management_sy.Event.{Event}
use iot_visual_management_sy.Rtos.{MutexApi, QueueApi}
use iot_visual_management_sy.EventQueue
use iot_visual_management_sy.Store.Invariant.{IsValid}
use iot_visual_management_sy.Store.Thins.{AscendsBelow}
use iot_visual_management_sy.Uplink.{Uplink, Message}
use iot_visual_management_sy.Application.{
  Application, Task, Round, heartbeat_event, heartbeat_due, process_received, retry_and_beat,
  run_round, flush_if_any,
}
use iot_visual_management_sy.Application.Flush.{flush_if_any-Flushed}
use iot_visual_management_sy.Application.Order.{Ordered, Flushed-Ordered}
use iot_visual_management_sy.Application.Sequence.{OrderedNow, process_event-Ordered}

module _ {u : Uplink} {m : MutexApi} (device_id : Bytes) (before : List Message) where
  pub flush_if_any-Ordered :
      (a : Application u m)
      → OrderedNow device_id before a
      → ((flush_if_any device_id a).next_sequence_id ≡ a.next_sequence_id)
        × OrderedNow device_id before (flush_if_any device_id a)
  flush_if_any-Ordered a o =
      let f = flush_if_any-Flushed device_id a o.valid.ready in
      let n = ap (λ x. x.next_sequence_id) f.rest in
      (
        n,
        subst (λ k. Ordered device_id before k (flush_if_any device_id a)) (sym n)
            (Flushed-Ordered device_id before a.next_sequence_id a _ f o),
      )

  pub process_received-Ordered :
      (a : Application u m) (event : Option Event)
      → a.next_sequence_id + 1 < u32_mod
      → OrderedNow device_id before a
      → ((process_received device_id a event).next_sequence_id ≤ a.next_sequence_id + 1)
        × OrderedNow device_id before (process_received device_id a event)
  process_received-Ordered a none room o = (omega arith, o)
  process_received-Ordered a (some e) room o = process_event-Ordered device_id before a e room o

  retry_and_beat-Ordered :
      (t : Task u m) (now : ℕ) (free_heap : ℤ)
      → t.application.next_sequence_id + 1 < u32_mod
      → OrderedNow device_id before t.application
      → let a = (retry_and_beat device_id t now free_heap).application in
        (a.next_sequence_id ≤ t.application.next_sequence_id + 1) × OrderedNow device_id before a
  retry_and_beat-Ordered t now free_heap room o =
      let f = flush_if_any-Ordered t.application o in
      let a = flush_if_any device_id t.application in
      let beat =
        process_event-Ordered device_id before a (heartbeat_event now free_heap)
          (omega (arith, f.0)) f.1 in
      elim (Bool-cases (heartbeat_due now t.last_heartbeat_ms)) [
        | inl due ↦ rw due (omega (arith, f.0, beat.0), beat.1)
        | inr early ↦ rw early (omega (arith, f.0), f.1)
      ]

module _ {u : Uplink} {m : MutexApi} {api : QueueApi} (device_id : Bytes) where
  -- Rounds one after the other. Each finds the queue as the other tasks left it.
  pub run : Task u m → List (Round api) → Task u m
  run t [] = t
  run t (r ∷ rs) = run (run_round device_id t r).0 rs

  pub run_round-Ordered :
      (before : List Message) (t : Task u m) (r : Round api)
      → t.application.next_sequence_id + 2 < u32_mod
      → OrderedNow device_id before t.application
      → let a = (run_round device_id t r).0.application in
        (a.next_sequence_id ≤ t.application.next_sequence_id + 2) × OrderedNow device_id before a
  unfolding run_round
  run_round-Ordered before t r room o =
      let got =
        process_received-Ordered device_id before t.application (EventQueue.receive r.queue).0
          (omega arith) o in
      let rest =
        retry_and_beat-Ordered device_id before
          (record t {
            application = process_received device_id t.application (EventQueue.receive r.queue).0;
          })
          (r.time_us / 1000) r.free_heap (omega (arith, got.0)) got.1 in
      (omega (arith, got.0, rest.0), rest.1)

  run-Ordered :
      (before : List Message) (t : Task u m) (rs : List (Round api))
      → t.application.next_sequence_id + 2 * length rs < u32_mod
      → OrderedNow device_id before t.application
      → OrderedNow device_id before (run t rs).application
  unfolding run
  run-Ordered before t [] room o = o
  run-Ordered before t (r ∷ rs) room o =
      let next = run_round-Ordered before t r (omega arith) o in
      run-Ordered before (run_round device_id t r).0 rs (omega (arith, next.0)) next.1

  -- However many rounds the task's loop makes, whatever it finds in the queue, however the
  -- connection comes and goes and whichever messages MQTT refuses: as long as the 32-bit numbers
  -- do not run out, at two for each round, what MQTT took since the start are the messages of some
  -- events that ascend in sequence ID, oldest first, the buffered events continue that order, and
  -- the buffer is valid. The start is any state with a valid buffer whose events ascend below the
  -- next number.
  pub run-in_order :
      (t : Task u m) (rs : List (Round api))
      → IsValid t.application.offline_store
      → AscendsBelow t.application.next_sequence_id t.application.offline_store.events
      → t.application.next_sequence_id + 2 * length rs < u32_mod
      → OrderedNow device_id (u.handed t.application.world) (run t rs).application
  run-in_order t rs v at room = run-Ordered (u.handed t.application.world) t rs room (record {
    sent = [];
    handed = sym (append-nil (u.handed t.application.world));
    ascends = at;
    valid = v;
  })
