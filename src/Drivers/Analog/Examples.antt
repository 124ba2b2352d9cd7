-- ===== src/Drivers/Analog/Examples.antt =====
-- The theorems about the analog input on a peripheral that always reads the same value.
use iot_visual_management_sy.Prelude.{
  arith, ℕ, ◌≡◌, ◌<◌, ◌≤◌, ◌⊎◌, ◌↔◌, refl, length, ℤ, pos, negsuc, ◌≤ℤ◌, true, false, List, [], ◌∷◌,
  ◌++◌, some,
}
use iot_visual_management_sy.Rtos.Host.{host_queue}
use iot_visual_management_sy.EventQueue.{EventQueue}
use iot_visual_management_sy.EventQueue.Fifo.{contents, capacity}
use iot_visual_management_sy.Drivers.Analog.{
  AdcApi, AnalogInput, create, initialize, raw_to_percent, value_event, update,
}
use iot_visual_management_sy.Drivers.Analog.Host.{host_adc}
use iot_visual_management_sy.Drivers.Analog.Setup.{
  raw_to_percent_scale, Initialized, initialize-Initialized,
}
use iot_visual_management_sy.Drivers.Analog.Report.{Due, update_on_reading}

abbrev slider : AnalogInput host_adc
slider = record (create {adc = host_adc} 0 3 4 2) {
  adc_handle = some tt;
  initialized = true;
  initial_event_pending = false;
}

abbrev queue : EventQueue host_queue
queue = record { handle = some (record { capacity = 2; items = [] }) }

raw_to_percent_scale_example :
    (pos 0 ≤ℤ raw_to_percent (negsuc 5))
    × (raw_to_percent (pos 2048) ≤ℤ pos 100)
    × (raw_to_percent (negsuc 5) ≤ℤ raw_to_percent (pos 2048))
    × ((raw_to_percent (negsuc 5) ≡ pos 100) ↔ (pos 4095 ≤ℤ negsuc 5))
raw_to_percent_scale_example = raw_to_percent_scale (negsuc 5) (pos 2048) (omega arith)

initialize-Initialized_example :
    Initialized
      (create 0 3 4 2)
      (pos 2048, 0)
      (initialize {adc = host_adc} (create 0 3 4 2) (pos 2048, 0))
unfolding create
initialize-Initialized_example =
    initialize-Initialized {adc = host_adc} (create 0 3 4 2) (pos 2048, 0) refl

update_on_reading_example :
    let c = raw_to_percent (pos 2048) in
    let r = update slider queue (pos 2048, 1) 5000 in
    (Due slider c
      × (length (contents queue) < capacity queue)
      × (r.0.0 ≡ record slider { stable_percent = c; initial_event_pending = false })
      × (contents r.0.1 ≡ contents queue ++ value_event 4 c 5000 ∷ []))
    ⊎ (((¬ Due slider c) ⊎ (capacity queue ≤ length (contents queue)))
        × (r.0.0 ≡ slider)
        × (contents r.0.1 ≡ contents queue))
unfolding iot_visual_management_sy.Drivers.Analog.read_raw create
update_on_reading_example = update_on_reading slider queue (pos 2048, 1) 5000 (pos 2048) refl refl

abbrev sweep : List (EventQueue host_queue × ((ℤ × ℕ) × ℕ))
sweep = (queue, ((pos 2048, 1), 5000)) ∷ (queue, ((pos 2060, 1), 15000)) ∷ []
