-- ===== src/StateManager/Examples.antt =====
-- The theorem about the station's state at a concrete history.
use iot_visual_management_sy.Prelude.{◌≡◌, List, [], ◌∷◌, negsuc, pos}
use iot_visual_management_sy.Event.{
  Event, blank, button_pressed, button_released, encoder_changed, set_output, mqtt_connected,
}
use iot_visual_management_sy.StateManager.{initial}
use iot_visual_management_sy.StateManager.Latest.{handle_all, state_of, handle_all-state_of}

abbrev history : List Event
history =
    record blank { type = button_pressed }
    ∷ record blank { type = encoder_changed; value = negsuc 2 }
    ∷ record blank { type = mqtt_connected }
    ∷ record blank { type = set_output; value = pos 1 }
    ∷ record blank { type = button_released }
    ∷ []

handle_all-state_of_example : handle_all initial history ≡ state_of initial history
handle_all-state_of_example = handle_all-state_of initial history
