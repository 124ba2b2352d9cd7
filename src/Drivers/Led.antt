-- ===== src/Drivers/Led.antt =====
-- firmware/main/drivers/LedDriver.cpp: the status LED. `gpio_config` and the pin are outside: its
-- result is an argument, and the level last written is the field `level`.
use iot_visual_management_sy.Prelude.{ℕ, Bool, true, false, not, Option, none, some, if◌then◌else◌}

pub record LedDriver : Type 0 where
  pub pin : ℕ
  pub active_high : Bool
  pub state : Bool
  -- What `gpio_set_level` last wrote to the pin, if anything.
  pub level : Option ℕ

unfoldable pub create : ℕ → Bool → LedDriver
create pin active_high = record {
  pin = pin;
  active_high = active_high;
  state = false;
  level = none;
}

abbrev pub level_of : Bool → Bool → ℕ
level_of active_high on = if active_high then (if on then 1 else 0) else (if on then 0 else 1)

write_state : LedDriver → LedDriver
write_state d = record d { level = some (level_of d.active_high d.state) }

-- The argument is `gpio_config(&config) == ESP_OK`.
unfoldable pub initialize : Bool → LedDriver → Bool × LedDriver
unfolding write_state
initialize configured d =
    if configured then (true, write_state (record d { state = false })) else (false, d)

unfoldable pub set : LedDriver → Bool → LedDriver
unfolding write_state
set d on = write_state (record d { state = on })

unfoldable pub toggle : LedDriver → LedDriver
unfolding write_state
toggle d = write_state (record d { state = not d.state })
