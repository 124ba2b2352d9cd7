-- ===== src/Mqtt/Quiet.antt =====
-- No echo: what the broker does reaches the station's queue only as events that stay there.
use iot_visual_management_sy.Prelude.{
  ℕ, ◌≡◌, ◌≤◌, refl, ap, ◌∙◌, ltb, length, sym, Bool, true, false, List, [], ◌∷◌, ◌++◌, append-nil,
  All, Bytes, arith, if◌then◌else◌,
}
use iot_visual_management_sy.Event.{Event, mqtt_connected}
use iot_visual_management_sy.Rtos.{QueueApi}
use iot_visual_management_sy.EventQueue.{EventQueue}
use iot_visual_management_sy.EventQueue
use iot_visual_management_sy.EventQueue.Fifo.{contents, capacity, send_lem}
use iot_visual_management_sy.Cjson.{CjsonApi}
use iot_visual_management_sy.Serializer.Command.{Command, output, state}
use iot_visual_management_sy.Mqtt.{
  MqttApi, MqttEvent, mqtt_event_connected, mqtt_event_disconnected, mqtt_event_error,
  mqtt_event_other, mqtt_event_data, Station, connection_event, publish_connection_event,
  handle_event,
}
use iot_visual_management_sy.Application.{should_publish}
use iot_visual_management_sy.Mqtt.Incoming.{left_alone, sent, handle_incoming_message_lem}

module _ {api : QueueApi} where
  -- The queue after is the queue before with at most one event behind, which is never sent upstream.
  pub record Quiet (q q' : EventQueue api) : Type 0 where
    pub added : List Event
    pub one : length added ≤ 1
    pub all : contents q' ≡ contents q ++ added
    pub not_sent : All (λ e. should_publish e.type ≡ false) added

  Quiet-if :
      (q q' : EventQueue api) (b : Bool) (e : Event)
      → should_publish e.type ≡ false
      → contents q' ≡ contents q ++ (if b then e ∷ [] else [])
      → Quiet q q'
  Quiet-if q q' true e h at = record {
    added = e ∷ [];
    one = omega arith;
    all = at;
    not_sent = (h, tt);
  }
  Quiet-if q q' false e h at = record { added = []; one = omega arith; all = at; not_sent = tt }

  pub Quiet-none : (q q' : EventQueue api) → q' ≡ q → Quiet q q'
  Quiet-none q q' same =
      Quiet-if q q' false (connection_event mqtt_connected true 0) refl
        (ap contents same ∙ sym (append-nil (contents q)))

  pub Quiet-notice :
      (q : EventQueue api) (e : Event)
      → should_publish e.type ≡ false
      → Quiet q (EventQueue.send q e).1
  Quiet-notice q e h = Quiet-if q _ (EventQueue.send q e).0 e h (send_lem q e).1

module _ (json : CjsonApi) where
  Command-not_sent :
      (payload : Bytes) (time_us : ℕ) (h : json.Heap) (e : Event)
      → Command json payload time_us h e
      → should_publish e.type ≡ false
  Command-not_sent payload time_us h e c =
      rw c.object.event (elim c.object.names [ output s t ↦ rw t refl | state s t ↦ rw t refl ])

module _ {mqtt : MqttApi} {api : QueueApi} (json : CjsonApi) where
  -- No echo: whatever the broker sends or does, one event of the client appends at most one event to
  -- the station's queue, and it is one that the application never sends upstream.
  pub handle_event-Quiet :
      (s : Station mqtt api json) (event : MqttEvent) (time_us : ℕ)
      → Quiet s.queue (handle_event json s event time_us).queue
  unfolding handle_event publish_connection_event
  handle_event-Quiet s mqtt_event_connected time_us = Quiet-notice s.queue _ refl
  handle_event-Quiet s mqtt_event_disconnected time_us = Quiet-notice s.queue _ refl
  handle_event-Quiet s (mqtt_event_data a) time_us =
      elim (handle_incoming_message_lem json s.manager a time_us s.queue s.heap).0 [
        | left_alone same ↦ Quiet-none s.queue _ same
        | sent payload e complete command at ↦
            Quiet-if s.queue _ (ltb (length (contents s.queue)) (capacity s.queue)) e
              (Command-not_sent json payload time_us s.heap e command) at
      ]
  handle_event-Quiet s mqtt_event_error time_us = Quiet-none s.queue _ refl
  handle_event-Quiet s mqtt_event_other time_us = Quiet-none s.queue _ refl
