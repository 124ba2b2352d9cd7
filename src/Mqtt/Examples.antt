-- ===== src/Mqtt/Examples.antt =====
-- The theorems about the MQTT manager at a concrete command.
use iot_visual_management_sy.Prelude.{
  ◌≡◌, ◌+◌, refl, pos, false, List, [], ◌∷◌, none, some, codes, ℕ,
}
use iot_visual_management_sy.Rtos.Host.{host_queue}
use iot_visual_management_sy.Cjson.Host.{host_json}
use iot_visual_management_sy.EventQueue.{EventQueue}
use iot_visual_management_sy.Mqtt.{
  MqttManager, MqttEvent, mqtt_event_connected, mqtt_event_data, mqtt_event_error, Arrival, Station,
  command_topic, initialize, handle_event,
}
use iot_visual_management_sy.Mqtt.Host.{host_mqtt, HostNet}
use iot_visual_management_sy.Mqtt.Quiet.{Quiet, handle_event-Quiet}
use iot_visual_management_sy.Mqtt.Client.{
  Consistent, clients_of, initialize_clients, run, last_notice, run_connected,
}

abbrev manager : MqttManager host_mqtt
manager = record {
  broker_uri = codes "mqtt://broker:1883";
  device_id = codes "station_01";
  client = none;
  initialized = false;
  connected = false;
}

abbrev net : HostNet
net = record { count = 0; taken = []; topics = [] }

abbrev queue : EventQueue host_queue
queue = record { handle = some (record { capacity = 2; items = [] }) }

abbrev arrival : Arrival
arrival = record {
  bytes = some (codes "{");
  data_len = pos 1;
  total_data_len = pos 1;
  current_data_offset = pos 0;
  retain = false;
  topic = some (command_topic (codes "station_01"));
  topic_len = pos 35;
}

abbrev station : Station host_mqtt host_queue host_json
station = record {
  manager = manager;
  queue = queue;
  net = net;
  heap = record { count = 0; entries = [] };
}

initialize_clients_example :
    let r = initialize manager net in
    Consistent r.1.0 × (r.0 ≡ r.1.0.initialized) × (r.1.1.count + 0 ≡ 0 + clients_of r.1.0)
initialize_clients_example = initialize_clients manager net refl

handle_event-Quiet_example :
    Quiet queue (handle_event host_json station (mqtt_event_data arrival) 5000).queue
handle_event-Quiet_example = handle_event-Quiet host_json station (mqtt_event_data arrival) 5000

abbrev notices : List (MqttEvent × ℕ)
notices =
    (mqtt_event_connected, 1000) ∷ (mqtt_event_data arrival, 2000) ∷ (mqtt_event_error, 3000) ∷ []

run_connected_example :
    (run host_json station notices).manager.connected ≡ last_notice false notices
run_connected_example = run_connected host_json station notices
