-- ===== src/EventQueue.antt =====
-- firmware/main/events/EventQueue.cpp: the wrapper of the FreeRTOS queue.
pub mod Fifo
mod Examples
use iot_visual_management_sy.Prelude.{ℕ, Bool, true, false, Option, none, some}
use iot_visual_management_sy.Event.{Event}
use iot_visual_management_sy.Rtos.{QueueApi}

pub record EventQueue (api : QueueApi) : Type 0 where
  pub handle : Option api.Handle

module _ {api : QueueApi} where
  unfoldable pub create : ℕ → EventQueue api
  create capacity = record { handle = api.create capacity }

  -- The destructor deletes the queue and clears the handle.
  pub destroy : EventQueue api → EventQueue api
  destroy q = record q { handle = none }

  unfoldable pub send : EventQueue api → Event → Bool × EventQueue api
  send q event = elim q.handle [
    | none ↦ (false, q)
    | some h ↦ let (sent, h') = api.send h event in (sent, record q { handle = some h' })
  ]

  -- `none` stands for the result false, where the caller's event is left as it was.
  unfoldable pub receive : EventQueue api → Option Event × EventQueue api
  receive q = elim q.handle [
    | none ↦ (none, q)
    | some h ↦ let (event, h') = api.receive h in (event, record q { handle = some h' })
  ]

  unfoldable pub is_valid : EventQueue api → Bool
  is_valid q = elim q.handle [ none ↦ false | some h ↦ true ]
