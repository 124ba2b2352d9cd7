-- ===== src/Wifi.antt =====
-- firmware/main/network/WifiManager.cpp: the Wi-Fi station, its initialization in stages, its
-- connection notices, and its reconnection.
pub mod Setup
pub mod Reconnect
pub mod Host
mod Examples
use iot_visual_management_sy.Prelude.{
  ℕ, ◌+◌, ◌-◌, ◌/◌, ◌≡◌, take, of_bool, Bool, true, false, ◌||◌, Option, none, some, Bytes,
  if◌then◌else◌,
}
use iot_visual_management_sy.EspWifi.{
  EspErr, esp_ok, esp_err_invalid_state, esp_fail, Credentials, NetView, WifiApi,
}
use iot_visual_management_sy.Event.{Event, EventType, blank, wifi_connected, wifi_disconnected}
use iot_visual_management_sy.Rtos.{QueueApi}
use iot_visual_management_sy.EventQueue.{EventQueue}
use iot_visual_management_sy.EventQueue

pub record WifiManager (wifi : WifiApi) : Type 0 where
  pub ssid : Bytes
  pub password : Bytes
  pub initialized : Bool
  pub connected : Bool
  pub reconnect_enabled : Bool
  pub netif : Option wifi.Netif
  pub wifi_event_handler : Option wifi.Handler
  pub ip_event_handler : Option wifi.Handler

-- The event bases and IDs that the handler tells apart; the last two are the other events of its
-- two bases.
pub data WifiEvent : Type 0 where
  wifi_event_sta_start wifi_event_sta_disconnected ip_event_sta_got_ip : WifiEvent
  wifi_event_other ip_event_other : WifiEvent

-- `strncpy` of `size - 1` bytes into a field of zeros, read back as a string.
abbrev pub field_text : ℕ → Bytes → Bytes
field_text size text = take (size - 1) text

-- The manager and the network stack.
abbrev pub State : WifiApi → Type 0
State wifi = WifiManager wifi × wifi.Net

-- The next stage of the initialization, unless this one failed. `true` is success.
infixl 5 ◌>>=◌
abbrev pub ◌>>=◌ : {S : Type 0} → Bool × S → (S → Bool × S) → Bool × S
r >>= next = if r.0 then next r.1 else (false, r.1)

-- The fields of the configuration that hold the credentials; the third that the code sets is a
-- constant, the threshold WPA2.
abbrev pub sta_config : WifiApi → Credentials → Credentials
sta_config wifi c = record {
  ssid = field_text wifi.ssid_size c.ssid;
  password = field_text wifi.password_size c.password;
}

module _ {wifi : WifiApi} where
  unfoldable pub create : Bytes → Bytes → WifiManager wifi
  create ssid password = record {
    ssid = ssid;
    password = password;
    initialized = false;
    connected = false;
    reconnect_enabled = true;
    netif = none;
    wifi_event_handler = none;
    ip_event_handler = none;
  }

  -- The destructor, in its order; the handler fields keep their values.
  unfoldable pub destroy : State wifi → State wifi
  destroy s =
      let g = s.0 in
      let w1 : wifi.Net = elim g.wifi_event_handler [
        | none ↦ s.1
        | some h ↦ wifi.unregister_wifi_event h s.1
      ] in
      let w2 : wifi.Net = elim g.ip_event_handler [
        | none ↦ w1
        | some h ↦ wifi.unregister_ip_event h w1
      ] in
      let w3 : wifi.Net = if g.initialized then wifi.wifi_deinit (wifi.wifi_stop w2) else w2 in
      elim g.netif [
        | none ↦ (g, w3)
        | some n ↦ (record g { netif = none }, wifi.netif_destroy n w3)
      ]

  unfoldable pub init_stack : State wifi → Bool × State wifi
  init_stack s = let (done, w) = wifi.netif_init s.1 in (done, (s.0, w))

  -- An event loop that exists already will do.
  unfoldable pub init_event_loop : State wifi → Bool × State wifi
  init_event_loop s =
      let (result, w) = wifi.event_loop_create_default s.1 in
      (elim result [ esp_ok ↦ true | esp_err_invalid_state ↦ true | esp_fail ↦ false ], (s.0, w))

  -- Whatever the call returns overwrites the interface.
  unfoldable pub init_interface : State wifi → Bool × State wifi
  init_interface s =
      let (made, w) = wifi.netif_create_default_wifi_sta s.1 in
      (elim made [ none ↦ false | some n ↦ true ], (record s.0 { netif = made }, w))

  unfoldable pub init_driver : State wifi → Bool × State wifi
  init_driver s = let (done, w) = wifi.wifi_init s.1 in (done, (s.0, w))

  -- A failed registration does not write the handle.
  unfoldable pub init_wifi_handler : State wifi → Bool × State wifi
  init_wifi_handler s =
      let (made, w) = wifi.register_wifi_event s.1 in
      elim made [
        | none ↦ (false, (s.0, w))
        | some h ↦ (true, (record s.0 { wifi_event_handler = some h }, w))
      ]

  unfoldable pub init_ip_handler : State wifi → Bool × State wifi
  init_ip_handler s =
      let (made, w) = wifi.register_ip_event s.1 in
      elim made [
        | none ↦ (false, (s.0, w))
        | some h ↦ (true, (record s.0 { ip_event_handler = some h }, w))
      ]

  abbrev pub credentials : WifiManager wifi → Credentials
  credentials g = record { ssid = g.ssid; password = g.password }

  unfoldable pub init_config : State wifi → Bool × State wifi
  init_config s =
      let (moded, w1) = wifi.set_mode_sta s.1 in
      if moded
      then (let (done, w2) = wifi.set_config (sta_config wifi (credentials s.0)) w1 in
          (done, (s.0, w2)))
      else (false, (s.0, w1))

  unfoldable pub init_start : State wifi → Bool × State wifi
  init_start s =
      let (done, w) = wifi.wifi_start s.1 in
      if done then (true, (record s.0 { initialized = true }, w)) else (false, (s.0, w))

  unfoldable pub initialize : State wifi → Bool × State wifi
  initialize s = if s.0.initialized then (true, s) else (do
    s ← init_stack s
    s ← init_event_loop s
    s ← init_interface s
    s ← init_driver s
    s ← init_wifi_handler s
    s ← init_ip_handler s
    s ← init_config s
    init_start s)

  unfoldable pub connect : State wifi → Bool × State wifi
  connect s =
      if s.0.initialized
      then (let (done, w) = wifi.wifi_connect s.1 in
          (done, (record s.0 { reconnect_enabled = true }, w)))
      else (false, s)

  unfoldable pub disconnect : State wifi → State wifi
  disconnect s =
      if s.0.initialized
      then (record s.0 { reconnect_enabled = false }, wifi.wifi_disconnect s.1)
      else s

abbrev pub connection_event : EventType → Bool → ℕ → Event
connection_event type is_up time_us = record blank {
  type = type;
  source_id = 0;
  value = of_bool is_up;
  timestamp_ms = time_us / 1000;
  sequence_id = 0;
}

module _ {wifi : WifiApi} {api : QueueApi} where
  unfoldable pub publish_connection_event :
      WifiManager wifi → EventQueue api → EventType → ℕ → EventQueue api
  publish_connection_event g q type time_us =
      (EventQueue.send q (connection_event type g.connected time_us)).1

-- What a step of the handler works on.
pub record Station (wifi : WifiApi) (api : QueueApi) : Type 0 where
  pub manager : WifiManager wifi
  pub net : wifi.Net
  pub queue : EventQueue api

module _ {wifi : WifiApi} {api : QueueApi} where
  unfoldable pub handle_wifi_event : Station wifi api → WifiEvent → ℕ → Station wifi api
  handle_wifi_event s wifi_event_sta_start time_us = record s { net = (wifi.wifi_connect s.net).1 }
  handle_wifi_event s wifi_event_sta_disconnected time_us =
      let g = record s.manager { connected = false } in
      record s {
        manager = g;
        queue = publish_connection_event g s.queue wifi_disconnected time_us;
        net = if g.reconnect_enabled then (wifi.wifi_connect s.net).1 else s.net;
      }
  handle_wifi_event s ip_event_sta_got_ip time_us =
      let g = record s.manager { connected = true } in
      record s { manager = g; queue = publish_connection_event g s.queue wifi_connected time_us }
  handle_wifi_event s wifi_event_other time_us = s
  handle_wifi_event s ip_event_other time_us = s
