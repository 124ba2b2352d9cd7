-- ===== src/Store/Examples.antt =====
-- The theorems about the offline store at concrete buffers.
use iot_visual_management_sy.Prelude.{
  ◌⊎◌, ◌≡◌, ◌≤◌, ◌↔◌, refl, length, pos, true, false, [], ◌∷◌, ◌++◌, some, arith, if◌then◌else◌,
  ◌&&◌, ◌==◌,
}
use iot_visual_management_sy.Event.{Event, blank, button_pressed, toggle_changed, fault_detected}
use iot_visual_management_sy.Rtos.Host.{host_mutex}
use iot_visual_management_sy.Store.{Store, create, push}
use iot_visual_management_sy.Store.Coalesce.{Unmatched, find, system}
use iot_visual_management_sy.Store.Invariant.{
  pushes, pops, counts, run, IsValid, run-create-IsValid,
}
use iot_visual_management_sy.Store.Push.{push_refuses, find-push, system-push}
use iot_visual_management_sy.Store.Outage.{outage_bounded}

abbrev pressed : Event
pressed = record blank { type = button_pressed; source_id = 1; sequence_id = 7 }

abbrev toggled : Event
toggled = record blank { type = toggle_changed; source_id = 2; sequence_id = 8 }

abbrev pressed_again : Event
pressed_again = record blank {
  type = button_pressed;
  source_id = 1;
  value = pos 1;
  sequence_id = 9;
}

abbrev fault : Event
fault = record blank { type = fault_detected; sequence_id = 9 }

-- A full buffer of two slots.
abbrev two_slots : Store host_mutex
two_slots = record {
  capacity = 2;
  events = pressed ∷ toggled ∷ [];
  coalesced_count = 0;
  mutex = some true;
}

two_slots-IsValid : IsValid two_slots
two_slots-IsValid = record {
  ready = record { handle = true; created = refl; free = refl };
  bounded = omega arith;
  one_per_source = ((λ _. (omega arith, tt)), ((λ _. tt), tt));
}

run-create-IsValid_example :
    IsValid
      (run (create {api = host_mutex} 2) (pushes pressed ∷ pushes toggled ∷ pops ∷ counts ∷ []))
    × ((run
          (create {api = host_mutex} 2)
          (pushes pressed ∷ pushes toggled ∷ pops ∷ counts ∷ [])).capacity
        ≡ 2)
run-create-IsValid_example =
    run-create-IsValid host_mutex 2 true (pushes pressed ∷ pushes toggled ∷ pops ∷ counts ∷ []) refl

push_refuses_example :
    (((push two_slots fault).0 ≡ false)
      ↔ ((two_slots.capacity ≤ length two_slots.events) × Unmatched 0 two_slots.events))
    × (((push two_slots fault).0 ≡ true) ⊎ ((push two_slots fault).1 ≡ two_slots))
push_refuses_example = push_refuses two_slots two_slots-IsValid fault

accepted : (push two_slots pressed_again).0 ≡ true
unfolding push iot_visual_management_sy.Store.erase_source
accepted = refl

find-push_example :
    find 1 (push two_slots pressed_again).1.events
    ≡ (if 1 == 1 then some pressed_again else find 1 two_slots.events)
find-push_example = find-push two_slots two_slots-IsValid pressed_again 1 (omega arith) accepted

system-push_example :
    system (push two_slots fault).1.events
    ≡ system two_slots.events ++ (if (push two_slots fault).0 && 0 == 0 then fault ∷ [] else [])
system-push_example = system-push two_slots two_slots-IsValid fault

outage_bounded_example :
    let s =
      run
        (create {api = host_mutex} 4)
        (pushes pressed ∷ pushes toggled ∷ pushes pressed_again ∷ []) in
    (length s.events ≤ 4) × ((push s toggled).0 ≡ true)
outage_bounded_example =
    outage_bounded host_mutex 4 4 true (pushes pressed ∷ pushes toggled ∷ pushes pressed_again ∷ [])
      toggled refl (omega arith)
      ((omega arith, omega arith), ((omega arith, omega arith), ((omega arith, omega arith), tt)))
      (omega arith, omega arith)
