-- ===== src/Uplink/Station.antt =====
-- The interface that the application uses, filled by the serializer and the MQTT manager.
use iot_visual_management_sy.Prelude.{
  ◌≡◌, refl, true, false, Bool, [], ◌∷◌, ◌++◌, some, Bytes, arith, Option-cases, inl, inr,
}
use iot_visual_management_sy.Event.{Event}
use iot_visual_management_sy.Cjson.{CjsonApi}
use iot_visual_management_sy.Serializer.{serialize_event}
use iot_visual_management_sy.Serializer.Outcome.{event_text}
use iot_visual_management_sy.Serializer.Render.{serialize_event_text}
use iot_visual_management_sy.Mqtt.{MqttApi, MqttManager, publish}
use iot_visual_management_sy.Uplink.{Message, Uplink}

-- The manager, the MQTT library and cJSON's memory.
pub record Line (mqtt : MqttApi) (json : CjsonApi) : Type 0 where
  pub manager : MqttManager mqtt
  pub net : mqtt.Net
  pub heap : json.Heap

module _ {mqtt : MqttApi} where
  -- `publish` returns true exactly if the library took the message, and then it took it once.
  pub publish_taken :
      (g : MqttManager mqtt) (m : Message) (w : mqtt.Net)
      → ((publish g m w).0 ≡ true → mqtt.accepted (publish g m w).1 ≡ mqtt.accepted w ++ m ∷ [])
        × ((publish g m w).0 ≡ false → mqtt.accepted (publish g m w).1 ≡ mqtt.accepted w)
        × ((publish g m w).0 ≡ true → g.connected ≡ true)
  unfolding publish
  publish_taken g m w = elim (Option-cases g.client) [
    | inl null ↦ ground arith
    | inr (c, made) ↦ ground (arith, mqtt.enqueue_taken c m w, mqtt.enqueue_refused c m w)
  ]

module _ (mqtt : MqttApi) (json : CjsonApi) where
  abbrev line_serialize : Event → Bytes → Bytes → Line mqtt json → Bytes × Line mqtt json
  line_serialize e d v w =
      let (text, h) = serialize_event json e (some d) (some v) w.heap in
      (text, record w { heap = h })

  abbrev line_publish : Message → Line mqtt json → Bool × Line mqtt json
  line_publish m w = let (taken, n) = publish w.manager m w.net in (taken, record w { net = n })

  abbrev pub station : Uplink
  station = record {
    World = Line mqtt json;
    is_connected = λ w. (w.manager.connected, w);
    serialize = line_serialize;
    publish = line_publish;
    handed = λ w. mqtt.accepted w.net;
    render = λ e d v. event_text json e (some d) (some v);
    handed-is_connected = λ w. refl;
    handed-serialize = λ e d v w. refl;
    serialize_text = λ e d v w. serialize_event_text json e (some d) (some v) w.heap;
    publish_taken = λ m w h. (publish_taken w.manager m w.net).0 h;
    publish_refused = λ m w h. (publish_taken w.manager m w.net).1 h;
  }
