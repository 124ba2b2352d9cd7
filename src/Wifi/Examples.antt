-- ===== src/Wifi/Examples.antt =====
-- The theorems about the Wi-Fi manager at a concrete network stack.
use iot_visual_management_sy.Prelude.{
  ◌≡◌, ◌≤◌, ◌-◌, ◌↔◌, refl, Bool, true, false, List, [], ◌∷◌, none, some, codes, length, take,
  if◌then◌else◌,
}
use iot_visual_management_sy.Rtos.Host.{host_queue}
use iot_visual_management_sy.EventQueue.Fifo.{contents, capacity}
use iot_visual_management_sy.Wifi.{
  wifi_event_sta_start, wifi_event_sta_disconnected, ip_event_sta_got_ip, State, Station, create,
  initialize, destroy, init_stack, init_event_loop, init_interface, init_driver, init_wifi_handler,
  init_ip_handler, init_config, init_start,
}
use iot_visual_management_sy.Wifi.Host.{host_wifi, HostNet}
use iot_visual_management_sy.Wifi.Setup.{
  IsFresh, is_held, destroy-initialize, configured_credentials,
}
use iot_visual_management_sy.Wifi.Reconnect.{
  Action, happens, disconnects, Link, advance_all, run, Shows, run-Shows, run-disconnect_silent,
}

abbrev net : Bool → HostNet
net ip_events = record {
  shown = record {
    netifs = 0;
    handlers = 0;
    default_handlers = false;
    driver = false;
    configured = none;
    requests = 0;
  };
  ip_events = ip_events;
}

manager-IsFresh : IsFresh {wifi = host_wifi} (create (codes "net") (codes "secret"))
unfolding create
manager-IsFresh = record {
  not_initialized = refl;
  no_netif = refl;
  no_wifi_handler = refl;
  no_ip_handler = refl;
}

destroy-initialize_example :
    let s : State host_wifi = (create (codes "net") (codes "secret"), net false) in
    ((destroy (initialize s).1).1.shown.netifs ≡ 0)
    × ((destroy (initialize s).1).1.shown.handlers ≡ 0)
    × ((destroy (initialize s).1).1.shown.driver
        ≡ (if (initialize s).0 then false else (initialize s).1.1.shown.driver))
    × ((destroy (initialize s).1).1.shown.default_handlers ≡ is_held (initialize s).1.0.netif)
destroy-initialize_example =
    destroy-initialize {wifi = host_wifi} (create (codes "net") (codes "secret"), net false)
      manager-IsFresh

-- The IP handler is refused after the driver is up: the driver stays initialized.
driver_left :
    (initialize {wifi = host_wifi}
      (create (codes "net") (codes "secret"), net false)).1.1.shown.driver
    ≡ true
unfolding create initialize init_stack init_event_loop init_interface init_driver init_wifi_handler
    init_ip_handler
driver_left = refl

configured_credentials_example :
    let s : State host_wifi = (create (codes "net") (codes "secret"), net true) in
    ((initialize s).1.1.shown.configured
      ≡ some (record { ssid = take 31 s.0.ssid; password = take 63 s.0.password }))
    × ((take (32 - 1) (codes "net") ≡ codes "net") ↔ (length (codes "net") ≤ 32 - 1))
    × ((take (64 - 1) (codes "secret") ≡ codes "secret") ↔ (length (codes "secret") ≤ 64 - 1))
unfolding create initialize init_stack init_event_loop init_interface init_driver init_wifi_handler
    init_ip_handler init_config init_start
configured_credentials_example =
    configured_credentials {wifi = host_wifi} (create (codes "net") (codes "secret"), net true)
      manager-IsFresh refl

abbrev station : Station host_wifi host_queue
station = record {
  manager = record (create {wifi = host_wifi} (codes "net") (codes "secret")) {
    initialized = true;
  };
  net = net true;
  queue = record { handle = some (record { capacity = 2; items = [] }) };
}

abbrev link : Link
link = record { up = false; wanted = true; asked = 0; notices = [] }

abbrev actions : List Action
actions =
    happens wifi_event_sta_start 10
    ∷ happens ip_event_sta_got_ip 20
    ∷ happens wifi_event_sta_disconnected 30
    ∷ disconnects
    ∷ happens wifi_event_sta_disconnected 40
    ∷ []

station-Shows : Shows [] station link
unfolding create contents capacity take
station-Shows = record {
  follows = record { ready = refl; up = refl; wanted = refl; asked = refl };
  noticed = refl;
}

run-Shows_example : Shows [] (run station actions) (advance_all link actions)
run-Shows_example = run-Shows [] station link actions station-Shows

run-disconnect_silent_example :
    (run station (disconnects ∷ happens wifi_event_sta_disconnected 30 ∷ [])).net.shown.requests ≡ 0
unfolding create
run-disconnect_silent_example =
    run-disconnect_silent station (happens wifi_event_sta_disconnected 30 ∷ []) refl (refl, tt)
