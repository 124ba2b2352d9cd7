-- ===== src/Mqtt.antt =====
-- firmware/main/network/MqttManager.cpp: the MQTT client, its connection notices, and the commands
-- that it receives.
pub mod Incoming
pub mod Quiet
pub mod Client
pub mod Host
mod Examples
use iot_visual_management_sy.Prelude.{
  ℕ, ◌+◌, ◌-◌, ◌/◌, ◌≡◌, ◌==◌, ltb, take, ℤ, pos, negsuc, pos_part, eqb_ℤ, of_bool, Bool, true,
  false, not, ◌&&◌, ◌||◌, List, [], ◌∷◌, ◌++◌, Option, none, some, Bytes, codes, eqb_bytes,
  if◌then◌else◌,
}
use iot_visual_management_sy.Config.{mqtt_base_topic}
use iot_visual_management_sy.Event.{Event, EventType, blank, mqtt_connected, mqtt_disconnected}
use iot_visual_management_sy.Rtos.{QueueApi}
use iot_visual_management_sy.EventQueue.{EventQueue}
use iot_visual_management_sy.EventQueue
use iot_visual_management_sy.Cjson.{CjsonApi}
use iot_visual_management_sy.Serializer.{parse_command}
use iot_visual_management_sy.Uplink.{Message}

abbrev pub is_negative : ℤ → Bool
is_negative (pos n) = false
is_negative (negsuc n) = true

-- What the manager uses of ESP-MQTT. `Net` is the library with its clients: `clients` counts those
-- made and not destroyed, `accepted` lists the messages that it took for sending, oldest first, and
-- `subscriptions` the topics that it took requests for, newest first.
pub record MqttApi : Type 1 where
  pub Net : Type 0
  pub Client : Type 0
  pub clients : Net → ℕ
  pub accepted : Net → List Message
  pub subscriptions : Net → List Bytes
  pub init : Bytes → Bytes → Net → Option Client × Net
  pub register_event : Client → Net → Bool × Net
  pub destroy : Client → Net → Net
  pub start : Client → Net → Bool × Net
  pub stop : Client → Net → Net
  -- The message ID, or a negative number.
  pub enqueue : Client → Message → Net → ℤ × Net
  pub subscribe : Client → Bytes → ℕ → Net → ℤ × Net
  pub clients-init :
      (uri id : Bytes) (w : Net)
      → clients (init uri id w).1 ≡ clients w + (elim (init uri id w).0 [ none ↦ 0 | some c ↦ 1 ])
  pub clients-register_event : (c : Client) (w : Net) → clients (register_event c w).1 ≡ clients w
  pub clients-destroy : (c : Client) (w : Net) → clients (destroy c w) ≡ clients w - 1
  pub enqueue_taken :
      (c : Client) (m : Message) (w : Net)
      → is_negative (enqueue c m w).0 ≡ false
      → accepted (enqueue c m w).1 ≡ accepted w ++ m ∷ []
  pub enqueue_refused :
      (c : Client) (m : Message) (w : Net)
      → is_negative (enqueue c m w).0 ≡ true
      → accepted (enqueue c m w).1 ≡ accepted w
  pub accepted-start : (c : Client) (w : Net) → accepted (start c w).1 ≡ accepted w
  pub accepted-subscribe :
      (c : Client) (t : Bytes) (qos : ℕ) (w : Net) → accepted (subscribe c t qos w).1 ≡ accepted w
  pub subscribe_taken :
      (c : Client) (t : Bytes) (qos : ℕ) (w : Net)
      → is_negative (subscribe c t qos w).0 ≡ false
      → subscriptions (subscribe c t qos w).1 ≡ t ∷ subscriptions w

pub record MqttManager (mqtt : MqttApi) : Type 0 where
  pub broker_uri : Bytes
  pub device_id : Bytes
  pub client : Option mqtt.Client
  pub initialized : Bool
  pub connected : Bool

-- The fields of `esp_mqtt_event_t` that an arriving message fills. A null pointer is `none`; the
-- lengths and the offset are ints.
pub record Arrival : Type 0 where
  pub bytes : Option Bytes  -- data
  pub data_len : ℤ
  pub total_data_len : ℤ
  pub current_data_offset : ℤ
  pub retain : Bool
  pub topic : Option Bytes
  pub topic_len : ℤ

-- The event IDs that the handler tells apart; `mqtt_event_other` is its `default`.
pub data MqttEvent : Type 0 where
  mqtt_event_connected mqtt_event_disconnected mqtt_event_error mqtt_event_other : MqttEvent
  mqtt_event_data : Arrival → MqttEvent

abbrev pub command_topic : Bytes → Bytes
command_topic device_id = mqtt_base_topic ++ (codes "/" ++ (device_id ++ codes "/commands"))

-- `p == nullptr || len <= 0`, and otherwise `std::string(p, len)`.
abbrev pub text_at : Option Bytes → ℤ → Option Bytes
text_at none len = none
text_at (some bytes) (pos len) = if len == 0 then none else some (take len bytes)
text_at (some bytes) (negsuc n) = none

-- The payload that passes the first test of `handleIncomingMessage`, if it does.
unfoldable pub complete_payload : Bytes → Arrival → Option Bytes
complete_payload device_id a = elim (text_at a.bytes a.data_len) [
  | none ↦ none
  | some payload ↦
      if ltb 512 (pos_part a.data_len)
        || (not (eqb_ℤ a.current_data_offset (pos 0))
            || (not (eqb_ℤ a.total_data_len a.data_len) || a.retain))
      then none
      else elim (text_at a.topic a.topic_len) [
        | none ↦ none
        | some topic ↦ if eqb_bytes topic (command_topic device_id) then some payload else none
      ]
]

abbrev pub connection_event : EventType → Bool → ℕ → Event
connection_event type is_up time_us = record blank {
  type = type;
  source_id = 0;
  value = of_bool is_up;
  timestamp_ms = time_us / 1000;
  sequence_id = 0;
}

module _ {mqtt : MqttApi} where
  unfoldable pub create : Bytes → Bytes → MqttManager mqtt
  create broker_uri device_id = record {
    broker_uri = broker_uri;
    device_id = device_id;
    client = none;
    initialized = false;
    connected = false;
  }

  unfoldable pub destroy : MqttManager mqtt → mqtt.Net → MqttManager mqtt × mqtt.Net
  destroy g w = elim g.client [
    | none ↦ (g, w)
    | some c ↦ (record g { client = none }, mqtt.destroy c (mqtt.stop c w))
  ]

  unfoldable pub initialize : MqttManager mqtt → mqtt.Net → Bool × (MqttManager mqtt × mqtt.Net)
  initialize g w =
      if g.initialized
      then (true, (g, w))
      else (let (made, w1) = mqtt.init g.broker_uri g.device_id w in
          elim made [
            | none ↦ (false, (record g { client = none }, w1))
            | some c ↦
                let (registered, w2) = mqtt.register_event c w1 in
                if registered
                then (true, (record g { client = some c; initialized = true }, w2))
                else (false, (record g { client = none }, mqtt.destroy c w2))
          ])

  unfoldable pub start : MqttManager mqtt → mqtt.Net → Bool × mqtt.Net
  start g w =
      if g.initialized
      then elim g.client [ none ↦ (false, w) | some c ↦ mqtt.start c w ]
      else (false, w)

  unfoldable pub stop : MqttManager mqtt → mqtt.Net → MqttManager mqtt × mqtt.Net
  stop g w = elim g.client [
    | none ↦ (g, w)
    | some c ↦ (record g { connected = false }, mqtt.stop c w)
  ]

  unfoldable pub publish : MqttManager mqtt → Message → mqtt.Net → Bool × mqtt.Net
  publish g message w =
      if g.connected
      then elim g.client [
        | none ↦ (false, w)
        | some c ↦ let (id, w1) = mqtt.enqueue c message w in (not (is_negative id), w1)
      ]
      else (false, w)

  unfoldable pub subscribe : MqttManager mqtt → Bytes → ℕ → mqtt.Net → Bool × mqtt.Net
  subscribe g topic qos w =
      if g.connected
      then elim g.client [
        | none ↦ (false, w)
        | some c ↦ let (id, w1) = mqtt.subscribe c topic qos w in (not (is_negative id), w1)
      ]
      else (false, w)

module _ {mqtt : MqttApi} {api : QueueApi} where
  unfoldable pub publish_connection_event :
      MqttManager mqtt → EventQueue api → EventType → ℕ → EventQueue api
  publish_connection_event g q type time_us =
      (EventQueue.send q (connection_event type g.connected time_us)).1

-- What a step of the handler works on.
pub record Station (mqtt : MqttApi) (api : QueueApi) (json : CjsonApi) : Type 0 where
  pub manager : MqttManager mqtt
  pub queue : EventQueue api
  pub net : mqtt.Net
  pub heap : json.Heap

module _ {mqtt : MqttApi} {api : QueueApi} (json : CjsonApi) where
  unfoldable pub handle_incoming_message :
      MqttManager mqtt → Arrival → ℕ → EventQueue api → json.Heap → EventQueue api × json.Heap
  handle_incoming_message g a time_us q h = elim (complete_payload g.device_id a) [
    | none ↦ (q, h)
    | some payload ↦
        let (command, h1) = parse_command json payload time_us h in
        elim command [ none ↦ (q, h1) | some event ↦ ((EventQueue.send q event).1, h1) ]
  ]

  unfoldable pub handle_event : Station mqtt api json → MqttEvent → ℕ → Station mqtt api json
  handle_event s mqtt_event_connected time_us =
      let g = record s.manager { connected = true } in
      record s {
        manager = g;
        queue = publish_connection_event g s.queue mqtt_connected time_us;
        net = (subscribe g (command_topic g.device_id) 1 s.net).1;
      }
  handle_event s mqtt_event_disconnected time_us =
      let g = record s.manager { connected = false } in
      record s { manager = g; queue = publish_connection_event g s.queue mqtt_disconnected time_us }
  handle_event s (mqtt_event_data a) time_us =
      let (q, h) = handle_incoming_message s.manager a time_us s.queue s.heap in
      record s { queue = q; heap = h }
  handle_event s mqtt_event_error time_us = s
  handle_event s mqtt_event_other time_us = s
