-- ===== src/Mqtt/Host.antt =====
-- A concrete MQTT library that meets the laws of `MqttApi`: one that takes everything.
use iot_visual_management_sy.Prelude.{
  ℕ, ◌+◌, ◌-◌, refl, ◌≡◌, true, false, pos, List, [], ◌∷◌, ◌++◌, some, Bytes, arith,
}
use iot_visual_management_sy.Uplink.{Message}
use iot_visual_management_sy.Mqtt.{MqttApi}

pub record HostNet : Type 0 where
  pub count : ℕ
  pub taken : List Message
  pub topics : List Bytes

-- A message ID of 1 is no refusal.
pub never_refused : (m : Message) (l : List Message) → false ≡ true → l ++ m ∷ [] ≡ l
never_refused m l h = ground arith

abbrev pub host_mqtt : MqttApi
host_mqtt = record {
  Net = HostNet;
  Client = Unit {0};
  clients = λ w. w.count;
  accepted = λ w. w.taken;
  subscriptions = λ w. w.topics;
  init = λ uri id w. (some tt, record w { count = w.count + 1 });
  register_event = λ c w. (true, w);
  destroy = λ c w. record w { count = w.count - 1 };
  start = λ c w. (true, w);
  stop = λ c w. w;
  enqueue = λ c m w. (pos 1, record w { taken = w.taken ++ m ∷ [] });
  subscribe = λ c t qos w. (pos 1, record w { topics = t ∷ w.topics });
  clients-init = λ uri id w. refl;
  clients-register_event = λ c w. refl;
  clients-destroy = λ c w. refl;
  enqueue_taken = λ c m w h. refl;
  enqueue_refused = λ c m w h. never_refused m w.taken h;
  accepted-start = λ c w. refl;
  accepted-subscribe = λ c t qos w. refl;
  subscribe_taken = λ c t qos w h. refl;
}
