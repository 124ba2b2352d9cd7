-- ===== src/Output.antt =====
-- firmware/main/outputs/OutputManager.cpp: events that set the station's output.
pub mod Shown
mod Examples
use iot_visual_management_sy.Prelude.{ℤ, Bool, nonzero}
use iot_visual_management_sy.Event.{Event, EventType, set_output, remote_state_update}
use iot_visual_management_sy.Drivers.Led.{LedDriver}
use iot_visual_management_sy.Drivers.Led

-- The manager holds a reference to its one driver.
pub record OutputManager : Type 0 where
  pub status_led : LedDriver

unfoldable pub initialize : Bool → OutputManager → Bool × OutputManager
unfolding Led.initialize
initialize configured o =
    let (done, led) = Led.initialize configured o.status_led in
    (done, record o { status_led = led })

-- The `switch` on `event.type`; the last clause is its `default`.
apply : EventType → ℤ → OutputManager → OutputManager
apply set_output value o = record o { status_led = Led.set o.status_led (nonzero value) }
apply remote_state_update value o = record o { status_led = Led.set o.status_led (nonzero value) }
apply _ value o = o

unfoldable pub handle_event : OutputManager → Event → OutputManager
unfolding apply Led.set
handle_event o event = apply event.type event.value o

pub set_status_led : OutputManager → Bool → OutputManager
set_status_led o on = record o { status_led = Led.set o.status_led on }
