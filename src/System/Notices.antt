-- ===== src/System/Notices.antt =====
-- What the events of MQTT and Wi-Fi and the rest of the start-up leave alone: they add at most one
-- event to the queue, none that goes upstream, and hand nothing to MQTT.
use iot_visual_management_sy.Prelude.{ℕ, ◌≡◌, refl, Bytes, true, arith, Option-cases, inl, inr}
use iot_visual_management_sy.Rtos.{QueueApi}
use iot_visual_management_sy.EventQueue.{EventQueue}
use iot_visual_management_sy.EventQueue.Fifo.{Fits, send-Fits}
use iot_visual_management_sy.Cjson.{CjsonApi}
use iot_visual_management_sy.Serializer.{parse_command}
use iot_visual_management_sy.Mqtt.{
  MqttApi, MqttManager, MqttEvent, mqtt_event_connected, mqtt_event_disconnected, mqtt_event_data,
  mqtt_event_error, mqtt_event_other, Arrival, Station, complete_payload, command_topic, subscribe,
  publish_connection_event, handle_incoming_message, handle_event,
}
use iot_visual_management_sy.Mqtt
use iot_visual_management_sy.Mqtt.Quiet.{Quiet, Quiet-none, Quiet-notice}
use iot_visual_management_sy.EspWifi.{WifiApi}
use iot_visual_management_sy.Wifi.{
  WifiEvent, wifi_event_sta_start, wifi_event_sta_disconnected, ip_event_sta_got_ip,
  wifi_event_other, ip_event_other, handle_wifi_event,
}
use iot_visual_management_sy.Wifi

module _ {mqtt : MqttApi} {api : QueueApi} (json : CjsonApi) where
  handle_incoming_message-Fits :
      (g : MqttManager mqtt) (a : Arrival) (time_us : ℕ) (q : EventQueue api) (h : json.Heap)
      (n : ℕ)
      → Fits n q
      → Fits n (handle_incoming_message json g a time_us q h).0
  unfolding handle_incoming_message
  handle_incoming_message-Fits g a time_us q h n fits =
      elim (Option-cases (complete_payload g.device_id a)) [
        | inl rejected ↦ rw (handle_incoming_message, rejected) fits
        | inr (payload, complete) ↦ elim (Option-cases (parse_command json payload time_us h).0) [
          | inl unsupported ↦ rw (handle_incoming_message, complete, unsupported) fits
          | inr (e, command) ↦
              rw (handle_incoming_message, complete, command) (send-Fits q e n fits)
        ]
      ]

  pub handle_event-Fits :
      (s : Station mqtt api json) (event : MqttEvent) (time_us n : ℕ)
      → Fits n s.queue
      → Fits n (handle_event json s event time_us).queue
  unfolding handle_event publish_connection_event
  handle_event-Fits s mqtt_event_connected time_us n h = send-Fits s.queue _ n h
  handle_event-Fits s mqtt_event_disconnected time_us n h = send-Fits s.queue _ n h
  handle_event-Fits s (mqtt_event_data a) time_us n h =
      handle_incoming_message-Fits s.manager a time_us s.queue s.heap n h
  handle_event-Fits s mqtt_event_error time_us n h = h
  handle_event-Fits s mqtt_event_other time_us n h = h

module _ {mqtt : MqttApi} where
  accepted-subscribe :
      (g : MqttManager mqtt) (topic : Bytes) (qos : ℕ) (w : mqtt.Net)
      → mqtt.accepted (subscribe g topic qos w).1 ≡ mqtt.accepted w
  unfolding subscribe
  accepted-subscribe g topic qos w = elim (Option-cases g.client) [
    | inl null ↦ ground arith
    | inr (c, made) ↦ ground (arith, mqtt.accepted-subscribe c topic qos w)
  ]

  pub accepted-start :
      (g : MqttManager mqtt) (w : mqtt.Net) → mqtt.accepted (Mqtt.start g w).1 ≡ mqtt.accepted w
  unfolding Mqtt.start
  accepted-start g w = elim (Option-cases g.client) [
    | inl null ↦ ground arith
    | inr (c, made) ↦ ground (arith, mqtt.accepted-start c w)
  ]

module _ {mqtt : MqttApi} {api : QueueApi} (json : CjsonApi) where
  pub accepted-handle_event :
      (s : Station mqtt api json) (event : MqttEvent) (time_us : ℕ)
      → mqtt.accepted (handle_event json s event time_us).net ≡ mqtt.accepted s.net
  unfolding handle_event
  accepted-handle_event s mqtt_event_connected time_us =
      let g = record s.manager { connected = true } in
      accepted-subscribe g (command_topic g.device_id) 1 s.net
  accepted-handle_event s mqtt_event_disconnected time_us = refl
  accepted-handle_event s (mqtt_event_data a) time_us = refl
  accepted-handle_event s mqtt_event_error time_us = refl
  accepted-handle_event s mqtt_event_other time_us = refl

module _ {wifi : WifiApi} {api : QueueApi} where
  pub handle_wifi_event-Quiet :
      (s : Wifi.Station wifi api) (event : WifiEvent) (time_us : ℕ)
      → Quiet s.queue (handle_wifi_event s event time_us).queue
  unfolding handle_wifi_event Wifi.publish_connection_event
  handle_wifi_event-Quiet s wifi_event_sta_start time_us = Quiet-none s.queue _ refl
  handle_wifi_event-Quiet s wifi_event_sta_disconnected time_us = Quiet-notice s.queue _ refl
  handle_wifi_event-Quiet s ip_event_sta_got_ip time_us = Quiet-notice s.queue _ refl
  handle_wifi_event-Quiet s wifi_event_other time_us = Quiet-none s.queue _ refl
  handle_wifi_event-Quiet s ip_event_other time_us = Quiet-none s.queue _ refl

  pub handle_wifi_event-Fits :
      (s : Wifi.Station wifi api) (event : WifiEvent) (time_us n : ℕ)
      → Fits n s.queue
      → Fits n (handle_wifi_event s event time_us).queue
  unfolding handle_wifi_event Wifi.publish_connection_event
  handle_wifi_event-Fits s wifi_event_sta_start time_us n h = h
  handle_wifi_event-Fits s wifi_event_sta_disconnected time_us n h = send-Fits s.queue _ n h
  handle_wifi_event-Fits s ip_event_sta_got_ip time_us n h = send-Fits s.queue _ n h
  handle_wifi_event-Fits s wifi_event_other time_us n h = h
  handle_wifi_event-Fits s ip_event_other time_us n h = h
