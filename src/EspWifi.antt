-- ===== src/EspWifi.antt =====
-- What the Wi-Fi manager uses of ESP-IDF's networking (esp_netif.h, esp_event.h and esp_wifi.h), as a
-- parameter: the calls, a view of what they act on, and the documented laws.
use iot_visual_management_sy.Prelude.{
  ℕ, ◌+◌, ◌-◌, ◌≡◌, Bool, true, false, Option, none, some, Bytes, if◌then◌else◌,
}

-- The results that the code tells apart.
pub data EspErr : Type 0 where
  esp_ok esp_err_invalid_state esp_fail : EspErr

-- What the station configuration holds.
pub record Credentials : Type 0 where
  pub ssid : Bytes
  pub password : Bytes

-- What of the network stack matters here: the interfaces made and not destroyed, the handlers that
-- the manager's calls registered, whether ESP-IDF's own handlers of the station's events are
-- registered, whether the Wi-Fi driver is initialized, the station configuration, and the number of
-- connection requests.
pub record NetView : Type 0 where
  pub netifs : ℕ
  pub handlers : ℕ
  pub default_handlers : Bool
  pub driver : Bool
  pub configured : Option Credentials
  pub requests : ℕ

-- What the manager uses of ESP-IDF's networking (esp_netif.h, esp_event.h, esp_wifi.h). A Boolean is
-- the comparison with ESP_OK; a handle that a call returns or writes is `none` if the call fails.
pub record WifiApi : Type 1 where
  pub Net : Type 0
  pub Netif : Type 0
  pub Handler : Type 0
  -- The sizes of the fields `ssid` and `password` of `wifi_sta_config_t`.
  pub ssid_size : ℕ
  pub password_size : ℕ
  pub view : Net → NetView
  pub netif_init : Net → Bool × Net
  pub event_loop_create_default : Net → EspErr × Net
  pub netif_create_default_wifi_sta : Net → Option Netif × Net
  pub wifi_init : Net → Bool × Net
  pub register_wifi_event : Net → Option Handler × Net
  pub register_ip_event : Net → Option Handler × Net
  pub set_mode_sta : Net → Bool × Net
  pub set_config : Credentials → Net → Bool × Net
  pub wifi_start : Net → Bool × Net
  pub wifi_stop : Net → Net
  pub wifi_deinit : Net → Net
  pub unregister_wifi_event : Handler → Net → Net
  pub unregister_ip_event : Handler → Net → Net
  pub netif_destroy : Netif → Net → Net
  pub wifi_connect : Net → Bool × Net
  pub wifi_disconnect : Net → Net
  pub view-netif_init : (w : Net) → view (netif_init w).1 ≡ view w
  pub view-event_loop_create_default : (w : Net) → view (event_loop_create_default w).1 ≡ view w
  -- Making the default station also registers ESP-IDF's own handlers of its events, which
  -- `esp_netif_destroy` does not unregister.
  pub view-netif_create_default_wifi_sta :
      (w : Net)
      → view (netif_create_default_wifi_sta w).1 ≡ (elim (netif_create_default_wifi_sta w).0 [
        | none ↦ view w
        | some n ↦ record (view w) { netifs = (view w).netifs + 1; default_handlers = true }
      ])
  pub view-wifi_init :
      (w : Net)
      → view (wifi_init w).1
        ≡ (if (wifi_init w).0 then record (view w) { driver = true } else view w)
  pub view-register_wifi_event :
      (w : Net)
      → view (register_wifi_event w).1 ≡ (elim (register_wifi_event w).0 [
        | none ↦ view w
        | some h ↦ record (view w) { handlers = (view w).handlers + 1 }
      ])
  pub view-register_ip_event :
      (w : Net)
      → view (register_ip_event w).1 ≡ (elim (register_ip_event w).0 [
        | none ↦ view w
        | some h ↦ record (view w) { handlers = (view w).handlers + 1 }
      ])
  pub view-set_mode_sta : (w : Net) → view (set_mode_sta w).1 ≡ view w
  pub view-set_config :
      (c : Credentials) (w : Net)
      → view (set_config c w).1
        ≡ (if (set_config c w).0 then record (view w) { configured = some c } else view w)
  pub view-wifi_start : (w : Net) → view (wifi_start w).1 ≡ view w
  pub view-wifi_stop : (w : Net) → view (wifi_stop w) ≡ view w
  pub view-wifi_deinit : (w : Net) → view (wifi_deinit w) ≡ record (view w) { driver = false }
  pub view-unregister_wifi_event :
      (h : Handler) (w : Net)
      → view (unregister_wifi_event h w) ≡ record (view w) { handlers = (view w).handlers - 1 }
  pub view-unregister_ip_event :
      (h : Handler) (w : Net)
      → view (unregister_ip_event h w) ≡ record (view w) { handlers = (view w).handlers - 1 }
  pub view-netif_destroy :
      (n : Netif) (w : Net)
      → view (netif_destroy n w) ≡ record (view w) { netifs = (view w).netifs - 1 }
  pub view-wifi_connect :
      (w : Net) → view (wifi_connect w).1 ≡ record (view w) { requests = (view w).requests + 1 }
  pub view-wifi_disconnect : (w : Net) → view (wifi_disconnect w) ≡ view w
