-- ===== src/Rtos.antt =====
-- What the firmware uses of FreeRTOS (freertos/queue.h and freertos/semphr.h), as parameters.
-- Each record holds the calls, a view of the object that they act on, and the documented laws.
pub mod Host
use iot_visual_management_sy.Prelude.{
  ℕ, ◌≤◌, ◌<◌, ◌≡◌, Bool, true, false, List, [], ◌∷◌, ◌++◌, Option, none, some, length,
}
use iot_visual_management_sy.Event.{Event}

-- A queue of copied events. `send` is xQueueSend without waiting; `receive` is xQueueReceive at
-- the end of its wait, so an event that arrives during the wait already stands in the queue.
pub record QueueApi : Type 1 where
  pub Handle : Type 0
  pub create : ℕ → Option Handle
  pub send : Handle → Event → Bool × Handle
  pub receive : Handle → Option Event × Handle
  pub items : Handle → List Event
  pub capacity : Handle → ℕ
  pub create_empty : (n : ℕ) (h : Handle) → create n ≡ some h → (items h ≡ []) × (capacity h ≡ n)
  pub send_room :
      (h : Handle) (e : Event)
      → length (items h) < capacity h
      → ((send h e).0 ≡ true) × (items (send h e).1 ≡ items h ++ e ∷ [])
  pub send_full :
      (h : Handle) (e : Event)
      → capacity h ≤ length (items h)
      → ((send h e).0 ≡ false) × (items (send h e).1 ≡ items h)
  pub receive_empty :
      (h : Handle) → items h ≡ [] → ((receive h).0 ≡ none) × (items (receive h).1 ≡ [])
  pub receive_front :
      (h : Handle) (e : Event) (rest : List Event)
      → items h ≡ e ∷ rest
      → ((receive h).0 ≡ some e) × (items (receive h).1 ≡ rest)
  pub capacity-send : (h : Handle) (e : Event) → capacity (send h e).1 ≡ capacity h
  pub capacity-receive : (h : Handle) → capacity (receive h).1 ≡ capacity h

-- A mutex. `take` is xSemaphoreTake with portMAX_DELAY, compared with pdTRUE.
pub record MutexApi : Type 1 where
  pub Handle : Type 0
  pub create : Option Handle
  pub take : Handle → Bool × Handle
  pub give : Handle → Handle
  pub is_free : Handle → Bool
  pub create_free : (m : Handle) → create ≡ some m → is_free m ≡ true
  pub take_free :
      (m : Handle) → is_free m ≡ true → ((take m).0 ≡ true) × (is_free (take m).1 ≡ false)
  -- Giving back a mutex that was just taken restores it.
  pub give-take : (m : Handle) → is_free m ≡ true → give (take m).1 ≡ m
