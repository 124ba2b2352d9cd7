-- ===== src/Wifi/Host.antt =====
-- A concrete network stack that meets the laws of `WifiApi`: every call succeeds, but for the
-- registration of the IP handler, which fails if the stack says so.
use iot_visual_management_sy.Prelude.{
  ◌+◌, ◌-◌, refl, Bool, true, false, Option, ◌≡◌, none, some, arith,
}
use iot_visual_management_sy.EspWifi.{WifiApi, NetView, esp_err_invalid_state}

pub record HostNet : Type 0 where
  pub shown : NetView
  pub ip_events : Bool

abbrev update : HostNet → NetView → HostNet
update w v = record w { shown = v }

abbrev with_handler : HostNet → HostNet
with_handler w = update w (record w.shown { handlers = w.shown.handlers + 1 })

abbrev without_handler : HostNet → HostNet
without_handler w = update w (record w.shown { handlers = w.shown.handlers - 1 })

abbrev register_ip : HostNet → Option (Unit {0}) × HostNet
register_ip w = elim w.ip_events [ true ↦ (some tt, with_handler w) | false ↦ (none, w) ]

pub view-register_ip :
    (w : HostNet)
    → (register_ip w).1.shown ≡ (elim (register_ip w).0 [
      | none ↦ w.shown
      | some h ↦ record w.shown { handlers = w.shown.handlers + 1 }
    ])
view-register_ip w = ground arith

-- The field sizes are those of esp_wifi_types.h.
abbrev pub host_wifi : WifiApi
host_wifi = record {
  Net = HostNet;
  Netif = Unit {0};
  Handler = Unit {0};
  ssid_size = 32;
  password_size = 64;
  view = λ w. w.shown;
  netif_init = λ w. (true, w);
  event_loop_create_default = λ w. (esp_err_invalid_state, w);
  netif_create_default_wifi_sta = λ w.
      (some tt, update w (record w.shown { netifs = w.shown.netifs + 1; default_handlers = true }));
  wifi_init = λ w. (true, update w (record w.shown { driver = true }));
  register_wifi_event = λ w. (some tt, with_handler w);
  register_ip_event = register_ip;
  set_mode_sta = λ w. (true, w);
  set_config = λ c w. (true, update w (record w.shown { configured = some c }));
  wifi_start = λ w. (true, w);
  wifi_stop = λ w. w;
  wifi_deinit = λ w. update w (record w.shown { driver = false });
  unregister_wifi_event = λ h w. without_handler w;
  unregister_ip_event = λ h w. without_handler w;
  netif_destroy = λ n w. update w (record w.shown { netifs = w.shown.netifs - 1 });
  wifi_connect = λ w. (true, update w (record w.shown { requests = w.shown.requests + 1 }));
  wifi_disconnect = λ w. w;
  view-netif_init = λ w. refl;
  view-event_loop_create_default = λ w. refl;
  view-netif_create_default_wifi_sta = λ w. refl;
  view-wifi_init = λ w. refl;
  view-register_wifi_event = λ w. refl;
  view-register_ip_event = view-register_ip;
  view-set_mode_sta = λ w. refl;
  view-set_config = λ c w. refl;
  view-wifi_start = λ w. refl;
  view-wifi_stop = λ w. refl;
  view-wifi_deinit = λ w. refl;
  view-unregister_wifi_event = λ h w. refl;
  view-unregister_ip_event = λ h w. refl;
  view-netif_destroy = λ n w. refl;
  view-wifi_connect = λ w. refl;
  view-wifi_disconnect = λ w. refl;
}
