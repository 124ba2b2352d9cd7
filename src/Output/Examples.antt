-- ===== src/Output/Examples.antt =====
-- The theorem about the LED at a concrete history.
use iot_visual_management_sy.Prelude.{true, false, pos, List, [], ◌∷◌}
use iot_visual_management_sy.Event.{Event, blank, button_pressed, set_output, remote_state_update}
use iot_visual_management_sy.Drivers.Led
use iot_visual_management_sy.StateManager.{initial}
use iot_visual_management_sy.StateManager.Latest.{handle_all}
use iot_visual_management_sy.Output.{OutputManager, initialize}
use iot_visual_management_sy.Output.Shown.{Shows, outputs_after, led_follows_output}

abbrev output : OutputManager
output = record { status_led = Led.create 2 false }

abbrev history : List Event
history =
    record blank { type = set_output; value = pos 1 }
    ∷ record blank { type = button_pressed }
    ∷ record blank { type = remote_state_update }
    ∷ []

led_follows_output_example :
    Shows (outputs_after (initialize true output).1 history) (handle_all initial history)
led_follows_output_example = led_follows_output output history
