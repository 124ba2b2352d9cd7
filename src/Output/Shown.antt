-- ===== src/Output/Shown.antt =====
-- The LED against the station's logical state: the two handlers of every event stay in step.
use iot_visual_management_sy.Prelude.{
  ℕ, ◌≡◌, refl, ap, nonzero, Bool, true, false, List, [], ◌∷◌, some, arith,
}
use iot_visual_management_sy.Event.{Event}
use iot_visual_management_sy.Drivers.Led
use iot_visual_management_sy.StateManager.{StateManager, initial}
use iot_visual_management_sy.StateManager
use iot_visual_management_sy.StateManager.Latest.{handle_all}
use iot_visual_management_sy.Output.{OutputManager, initialize, handle_event}

-- The level that lights the LED, or puts it out: high lights an active-high LED, low an active-low one.
abbrev pub level_for : Bool → Bool → ℕ
level_for true true = 1
level_for true false = 0
level_for false true = 0
level_for false false = 1

level_of-level_for :
    (active_high on : Bool) → Led.level_of active_high on ≡ level_for active_high on
level_of-level_for true true = refl
level_of-level_for true false = refl
level_of-level_for false true = refl
level_of-level_for false false = refl

-- The pin has the level that stands for the logical output state.
pub record Shows (o : OutputManager) (s : StateManager) : Type 0 where
  pub state : o.status_led.state ≡ s.output_state
  pub level : o.status_led.level ≡ some (level_for o.status_led.active_high s.output_state)

-- `handleEvent` for one event after the other.
pub outputs_after : OutputManager → List Event → OutputManager
outputs_after o [] = o
outputs_after o (e ∷ es) = outputs_after (handle_event o e) es

handle_event_state :
    (o : OutputManager) (s : StateManager) (e : Event)
    → Shows o s
    → (handle_event o e).status_led.state ≡ (StateManager.handle_event s e).output_state
unfolding handle_event StateManager.handle_event
handle_event_state o s e h = ground (arith, h.state)

handle_event_level :
    (o : OutputManager) (s : StateManager) (e : Event)
    → Shows o s
    → (handle_event o e).status_led.level
      ≡ some (
          level_for
            (handle_event o e).status_led.active_high
            (StateManager.handle_event s e).output_state)
unfolding handle_event StateManager.handle_event
handle_event_level o s e h =
    ground (arith, h.level, level_of-level_for o.status_led.active_high (nonzero e.value))

pub handle_event-Shows :
    (o : OutputManager) (s : StateManager) (e : Event)
    → Shows o s
    → Shows (handle_event o e) (StateManager.handle_event s e)
handle_event-Shows o s e h = record {
  state = handle_event_state o s e h;
  level = handle_event_level o s e h;
}

outputs_after-Shows :
    (o : OutputManager) (s : StateManager) (es : List Event)
    → Shows o s
    → Shows (outputs_after o es) (handle_all s es)
unfolding outputs_after handle_all
outputs_after-Shows o s [] h = h
outputs_after-Shows o s (e ∷ es) h =
    outputs_after-Shows (handle_event o e) (StateManager.handle_event s e) es
      (handle_event-Shows o s e h)

pub initialize-Shows : (o : OutputManager) → Shows (initialize true o).1 initial
unfolding initialize
initialize-Shows o = record {
  state = refl;
  level = ap some (level_of-level_for o.status_led.active_high false);
}

-- After a successful initialization of the LED, whatever events both managers handle, the pin has
-- the level that stands for the logical output state of the station: high for on if the LED is
-- active-high, low for on if it is active-low.
pub led_follows_output :
    (o : OutputManager) (es : List Event)
    → Shows (outputs_after (initialize true o).1 es) (handle_all initial es)
led_follows_output o es = outputs_after-Shows (initialize true o).1 initial es (initialize-Shows o)
