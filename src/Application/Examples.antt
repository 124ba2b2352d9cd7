-- ===== src/Application/Examples.antt =====
-- The theorems about the application on a station whose link takes one message.
use iot_visual_management_sy.Prelude.{
  ◌⊎◌, inr, none, ◌≡◌, refl, pos, true, false, List, [], ◌∷◌, some, arith, Bytes, codes,
}
use iot_visual_management_sy.Event.{
  Event, blank, button_pressed, toggle_changed, set_output, mqtt_connected,
}
use iot_visual_management_sy.Rtos.Host.{host_mutex, host_queue}
use iot_visual_management_sy.Drivers.Led
use iot_visual_management_sy.StateManager.{initial}
use iot_visual_management_sy.Store.Invariant.{IsValid}
use iot_visual_management_sy.Cjson.Host.{host_json}
use iot_visual_management_sy.Mqtt.Host.{host_mqtt}
use iot_visual_management_sy.Uplink.Station.{station as station_uplink}
use iot_visual_management_sy.Uplink.Host.{host_uplink}
use iot_visual_management_sy.Application.{Application, Task, Round, flush_offline_events}
use iot_visual_management_sy.Application.Flush.{Flushed, Ended, flush_lem}
use iot_visual_management_sy.Application.Offer.{Unserializable}
use iot_visual_management_sy.Application.Holds.{Holds}
use iot_visual_management_sy.Application.Converge.{told_after, process_all_converges}
use iot_visual_management_sy.Application.Loop.{run, run-in_order}
use iot_visual_management_sy.Application.Beats.{Timely, beats, beats_spaced}
use iot_visual_management_sy.Application.Sequence.{OrderedNow, process_all}

abbrev device : Bytes
device = codes "station-01"

abbrev waiting : Event
waiting = record blank { type = button_pressed; source_id = 1; sequence_id = 4 }

abbrev toggled : Event
toggled = record blank { type = toggle_changed; source_id = 2; value = pos 1 }

-- One event waits, the link is up, and there is room for one message.
abbrev station : Application host_uplink host_mutex
station = record {
  state_manager = initial;
  output_manager = record { status_led = Led.create 2 true };
  offline_store = record {
    capacity = 2;
    events = waiting ∷ [];
    coalesced_count = 0;
    mutex = some true;
  };
  next_sequence_id = 5;
  world = record { up = true; room = 1; taken = [] };
}

station-IsValid : IsValid station.offline_store
station-IsValid = record {
  ready = record { handle = true; created = refl; free = refl };
  bounded = omega arith;
  one_per_source = ((λ _. tt), tt);
}

flush_lem_example :
    Flushed device station (flush_offline_events device station)
    × (((true ≡ true) × Ended device (flush_offline_events device station))
        ⊎ ((true ≡ false)
            × ((flush_offline_events device station).offline_store ≡ station.offline_store)))
flush_lem_example = flush_lem device station station-IsValid.ready

abbrev arrivals : List Event
arrivals =
    toggled
    ∷ record blank { type = set_output; value = pos 1 }
    ∷ waiting
    ∷ record blank { type = mqtt_connected }
    ∷ []

-- A station on the serializer and the MQTT manager themselves.
abbrev connected_station : Application (station_uplink host_mqtt host_json) host_mutex
connected_station = record {
  state_manager = initial;
  output_manager = record { status_led = Led.create 2 true };
  offline_store = station.offline_store;
  next_sequence_id = 5;
  world = record {
    manager = record {
      broker_uri = codes "mqtt://broker:1883";
      device_id = device;
      client = some tt;
      initialized = true;
      connected = true;
    };
    net = record { count = 1; taken = []; topics = [] };
    heap = record { count = 0; entries = [] };
  };
}

abbrev task : Task (station_uplink host_mqtt host_json) host_mutex
task = record { application = connected_station; last_heartbeat_ms = 0 }

-- One round with a toggle event and no heartbeat, one with an empty queue and a heartbeat.
abbrev rounds : List (Round host_queue)
rounds =
    record {
      queue = record { handle = some (record { capacity = 2; items = toggled ∷ [] }) };
      time_us = 5000000;
      free_heap = pos 100000;
    }
    ∷ record {
      queue = record { handle = some (record { capacity = 2; items = [] }) };
      time_us = 30500000;
      free_heap = pos 100000;
    }
    ∷ []

run-in_order_example : OrderedNow device [] (run device task rounds).application
run-in_order_example =
    run-in_order device task rounds station-IsValid
      (record { ascending = (tt, tt); below = (omega arith, tt) }) (omega arith)

beats_spaced_example : Timely 0 (beats device task rounds)
beats_spaced_example =
    beats_spaced device task rounds (omega arith, omega arith, (omega arith, omega arith, tt))

host_sure : (e : Event) → ¬ Unserializable host_uplink device e
host_sure e x = ground (arith, x.1)

abbrev empty_station : Application host_uplink host_mutex
empty_station = record station { offline_store = record station.offline_store { events = [] } }

abbrev toggles : List Event
toggles =
    toggled
    ∷ record blank { type = set_output; value = pos 1 }
    ∷ record toggled { value = pos 0 }
    ∷ []

process_all_converges_example :
    Holds device 2 2 [] (told_after 2 none toggles) (process_all device empty_station toggles)
process_all_converges_example =
    process_all_converges device 2 2 host_sure empty_station toggles
      (record {
        ready = record { handle = true; created = refl; free = refl };
        bounded = omega arith;
        one_per_source = tt;
      })
      refl (omega arith)
      (
        (λ h. inr (refl, (omega arith, omega arith))),
        ((λ h. absurd (ground arith)), ((λ h. inr (refl, (omega arith, omega arith))), tt)),
      )
