-- ===== src/Serializer/Examples.antt =====
-- The theorems about the serializer at a concrete event and command.
use iot_visual_management_sy.Prelude.{◌≡◌, ◌↔◌, pos, [], ◌∷◌, some, codes, Bytes}
use iot_visual_management_sy.Event.{Event, blank, toggle_changed}
use iot_visual_management_sy.Cjson.Host.{host_json, HostHeap}
use iot_visual_management_sy.Serializer.{serialize_event, parse_command}
use iot_visual_management_sy.Serializer.Outcome.{Serialized}
use iot_visual_management_sy.Serializer.Render.{serialize_event_lem}
use iot_visual_management_sy.Serializer.Command.{Command, parse_command_lem}

abbrev toggled : Event
toggled = record blank { type = toggle_changed; source_id = 2; value = pos 1; sequence_id = 7 }

abbrev heap : HostHeap
heap = record { count = 3; entries = [] }

-- An opening brace, which the host takes as a command.
abbrev payload : Bytes
payload = 123 ∷ []

serialize_event_lem_example :
    let r =
      serialize_event host_json toggled (some (codes "station_01")) (some (codes "0.1.0")) heap in
    (r.1.count ≡ 3)
    × Serialized host_json toggled (some (codes "station_01")) (some (codes "0.1.0")) heap r.0
serialize_event_lem_example =
    serialize_event_lem host_json toggled (some (codes "station_01")) (some (codes "0.1.0")) heap

parse_command_lem_example :
    ((e : Event)
      → ((parse_command host_json payload 5000 heap).0 ≡ some e)
        ↔ Command host_json payload 5000 heap e)
    × ((parse_command host_json payload 5000 heap).1.count ≡ 3)
parse_command_lem_example = parse_command_lem host_json payload 5000 heap
