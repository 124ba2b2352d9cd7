-- ===== src/Drivers/Digital/Examples.antt =====
-- The theorems about the debounced inputs on a button that bounces and is then held.
use iot_visual_management_sy.Prelude.{
  ℕ, ◌*◌, ◌<◌, ◌≤◌, ◌⊎◌, length, ◌≡◌, ◌++◌, true, false, List, [], ◌∷◌, some, arith,
}
use iot_visual_management_sy.Event.{button_pressed, button_released}
use iot_visual_management_sy.Rtos.Host.{host_queue}
use iot_visual_management_sy.EventQueue.{EventQueue}
use iot_visual_management_sy.EventQueue.Fifo.{contents, capacity}
use iot_visual_management_sy.Drivers.Digital.{DigitalInput, Poll, create, update}
use iot_visual_management_sy.Drivers.Digital.Update.{
  Due, since, seen, reported_event, update_on_level,
}

abbrev button : DigitalInput
button = create 4 1 button_pressed button_released 30

abbrev queue : EventQueue host_queue
queue = record { handle = some (record { capacity = 2; items = [] }) }

-- A poll at a time in milliseconds; level 0 is a pressed button.
abbrev poll : ℕ → ℕ → Poll
poll level ms = record { level = level; time_us = ms * 1000; publish_time_us = ms * 1000 }

-- The contact bounces, then stays.
abbrev polls : List (Poll × EventQueue host_queue)
polls = (poll 0 110, queue) ∷ (poll 1 120, queue) ∷ (poll 0 130, queue) ∷ []

abbrev last : Poll
last = poll 0 170

update_on_level_example :
    (Due button true 170 (since button true 170)
      × (length (contents queue) < capacity queue)
      × ((update button queue last).0
          ≡ record (seen button true 170) { stable_state = true; initial_event_pending = false })
      × (contents (update button queue last).1
          ≡ contents queue ++ reported_event button true 170000 ∷ []))
    ⊎ (((¬ Due button true 170 (since button true 170))
          ⊎ (capacity queue ≤ length (contents queue)))
        × ((update button queue last).0 ≡ seen button true 170)
        × (contents (update button queue last).1 ≡ contents queue))
update_on_level_example = update_on_level button queue last (omega arith) (omega arith)
