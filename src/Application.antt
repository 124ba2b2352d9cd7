-- ===== src/Application.antt =====
-- firmware/main/app/Application.cpp: the task that consumes events, keeps the state and the output,
-- numbers outgoing events, and publishes them or buffers them while MQTT cannot take them.
pub mod Offer
pub mod Flush
pub mod Publish
pub mod Process
pub mod Order
pub mod Sequence
pub mod Loop
pub mod LastValue
pub mod Holds
pub mod Converge
pub mod Lit
pub mod Consume
pub mod Beats
pub mod Upheld
pub mod Emptied
mod Examples
use iot_visual_management_sy.Prelude.{
  ℕ, ◌/◌, zero, suc, leb, is_nil, length, sub64, next32, ℤ, Bool, true, false, ◌++◌, Option, none,
  some, Bytes, codes, if◌then◌else◌,
}
use iot_visual_management_sy.Config.{firmware_version, mqtt_base_topic, heartbeat_interval_ms}
use iot_visual_management_sy.Event.{
  Event, EventType, blank, button_pressed, button_released, toggle_changed, encoder_changed,
  analog_changed, fault_detected, sync_requested, heartbeat, mqtt_connected,
}
use iot_visual_management_sy.Rtos.{MutexApi, QueueApi}
use iot_visual_management_sy.EventQueue.{EventQueue}
use iot_visual_management_sy.EventQueue
use iot_visual_management_sy.Store.{Store}
use iot_visual_management_sy.Store
use iot_visual_management_sy.StateManager.{StateManager}
use iot_visual_management_sy.StateManager
use iot_visual_management_sy.Output.{OutputManager}
use iot_visual_management_sy.Output
use iot_visual_management_sy.Uplink.{Uplink, Message}

pub record Application (u : Uplink) (m : MutexApi) : Type 0 where
  pub state_manager : StateManager
  pub output_manager : OutputManager
  pub offline_store : Store m
  pub next_sequence_id : ℕ  -- uint32
  pub world : u.World

-- `start`, on whether `taskHandle_` is set. The first argument is `xTaskCreate(...) == pdPASS`; the
-- second component of the result is the flag afterwards.
unfoldable pub start : Bool → Bool → Bool × Bool
start created task_started = if task_started then (true, true) else (created, created)

abbrev pub should_publish : EventType → Bool
should_publish button_pressed = true
should_publish button_released = true
should_publish toggle_changed = true
should_publish encoder_changed = true
should_publish analog_changed = true
should_publish fault_detected = true
should_publish sync_requested = true
should_publish heartbeat = true
should_publish _ = false

abbrev pub is_heartbeat : EventType → Bool
is_heartbeat heartbeat = true
is_heartbeat _ = false

abbrev pub is_mqtt_connected : EventType → Bool
is_mqtt_connected mqtt_connected = true
is_mqtt_connected _ = false

-- `DEVICE_ID`, the argument of the functions below.
abbrev pub event_topic : Bytes → Bytes
event_topic device_id = mqtt_base_topic ++ (codes "/" ++ (device_id ++ codes "/events"))

abbrev pub message_of : Bytes → Bytes → Message
message_of device_id payload = record {
  topic = event_topic device_id;
  payload = payload;
  qos = 1;
  retain = false;
}

module _ (u : Uplink) (device_id : Bytes) where
  -- Serializes an event and hands it to MQTT. `none` if the text is empty, which skips the publish.
  unfoldable pub offer : Event → u.World → Option Bool × u.World
  offer event w =
      let (payload, w1) = u.serialize event device_id firmware_version w in
      if is_nil payload
      then (none, w1)
      else (let (taken, w2) = u.publish (message_of device_id payload) w1 in (some taken, w2))

module _ {u : Uplink} {m : MutexApi} where
  -- The end of `publishOrBuffer`. The log line after a push reads the size and the count.
  unfoldable pub buffer : Application u m → Event → Application u m
  buffer a event =
      if is_heartbeat event.type
      then a
      else (let (pushed, s1) = Store.push a.offline_store event in
          record a {
            offline_store = (if pushed then (Store.coalesced (Store.size s1).1).1 else s1);
          })

module _ {u : Uplink} {m : MutexApi} (device_id : Bytes) where
  -- One round of the loop of `flushOfflineEvents`, and whether another follows.
  unfoldable pub flush_round : Application u m → Application u m × Bool
  flush_round a =
      let (front, s1) = Store.peek a.offline_store in
      elim front [
        | none ↦ (record a { offline_store = s1 }, false)
        | some event ↦
            let (taken, w) = offer u device_id event a.world in
            let a1 = record a { offline_store = s1; world = w } in
            let popped = record a1 { offline_store = (Store.pop s1).1 } in
            elim taken [
              | none ↦ (popped, true)
              | some accepted ↦ if accepted then (popped, true) else (a1, false)
            ]
      ]

  unfoldable pub flush_loop : ℕ → Application u m → Application u m
  flush_loop zero a = a
  flush_loop (suc fuel) a =
      let (a', more) = flush_round a in elim more [ true ↦ flush_loop fuel a' | false ↦ a' ]

  -- Each round that goes on removes an event, so one round more than there are events is enough.
  unfoldable pub flush_offline_events : Application u m → Application u m
  flush_offline_events a =
      let (connected, w) = u.is_connected a.world in
      let a1 = record a { world = w } in
      if connected then flush_loop (suc (length a1.offline_store.events)) a1 else a1

  -- `if (!offlineStore_.empty()) flushOfflineEvents();`
  unfoldable pub flush_if_any : Application u m → Application u m
  flush_if_any a =
      let (none_left, s1) = Store.empty a.offline_store in
      let a1 = record a { offline_store = s1 } in if none_left then a1 else flush_offline_events a1

  -- `if (offlineStore_.empty() && mqttManager_.isConnected())` and its body: whether MQTT took it.
  unfoldable pub publish_now : Application u m → Event → Application u m × Bool
  publish_now a event =
      let (none_left, s1) = Store.empty a.offline_store in
      let a1 = record a { offline_store = s1 } in
      if none_left
      then (let (connected, w1) = u.is_connected a1.world in
          if connected
          then (let (taken, w2) = offer u device_id event w1 in
              (record a1 { world = w2 }, elim taken [ none ↦ false | some accepted ↦ accepted ]))
          else (record a1 { world = w1 }, false))
      else (a1, false)

  unfoldable pub publish_or_buffer : Application u m → Event → Application u m
  publish_or_buffer a event =
      let (a1, taken) = publish_now (flush_if_any a) event in if taken then a1 else buffer a1 event

  -- The part of `processEvent` before the state is updated.
  unfoldable pub restore : Application u m → EventType → Application u m
  restore a type =
      if is_mqtt_connected type
      then flush_offline_events (record a { offline_store = (Store.size a.offline_store).1 })
      else a

  unfoldable pub process_event : Application u m → Event → Application u m
  process_event a event =
      let a1 = restore a event.type in
      let a2 = record a1 {
        state_manager = StateManager.handle_event a1.state_manager event;
        output_manager = Output.handle_event a1.output_manager event;
      } in
      if should_publish event.type
      then publish_or_buffer (record a2 { next_sequence_id = next32 a2.next_sequence_id })
          (record event { sequence_id = a2.next_sequence_id })
      else a2

-- What one round of `run` meets: the queue at the end of its wait, the timer in microseconds, and the
-- free heap as an int32.
pub record Round (api : QueueApi) : Type 0 where
  pub queue : EventQueue api
  pub time_us : ℕ
  pub free_heap : ℤ

-- The task: the application and the local variable of `run`.
pub record Task (u : Uplink) (m : MutexApi) : Type 0 where
  pub application : Application u m
  pub last_heartbeat_ms : ℕ  -- uint64

abbrev pub heartbeat_event : ℕ → ℤ → Event
heartbeat_event now free_heap = record blank {
  type = heartbeat;
  timestamp_ms = now;
  value = free_heap;
}

-- `now - lastHeartbeatMs >= config::HEARTBEAT_INTERVAL_MS`
abbrev pub heartbeat_due : ℕ → ℕ → Bool
heartbeat_due now last = leb heartbeat_interval_ms (sub64 now last)

module _ {u : Uplink} {m : MutexApi} (device_id : Bytes) where
  -- `if (eventQueue_.receive(...)) processEvent(event);`
  abbrev pub process_received : Application u m → Option Event → Application u m
  process_received a none = a
  process_received a (some event) = process_event device_id a event

  -- The round from there on.
  abbrev pub retry_and_beat : Task u m → ℕ → ℤ → Task u m
  retry_and_beat t now free_heap =
      let a = flush_if_any device_id t.application in
      if heartbeat_due now t.last_heartbeat_ms
      then record {
        application = process_event device_id a (heartbeat_event now free_heap);
        last_heartbeat_ms = now;
      }
      else record t { application = a }

module _ {u : Uplink} {m : MutexApi} {api : QueueApi} (device_id : Bytes) where
  -- One round of the loop of `run`, and the queue that it leaves.
  unfoldable pub run_round : Task u m → Round api → Task u m × EventQueue api
  run_round t r =
      let (event, q) = EventQueue.receive r.queue in
      let a = process_received device_id t.application event in
      (retry_and_beat device_id (record t { application = a }) (r.time_us / 1000) r.free_heap, q)
