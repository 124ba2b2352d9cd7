-- ===== src/Application/Emptied.antt =====
-- While the way to the broker is up and takes every message, a round leaves nothing in the buffer.
use iot_visual_management_sy.Prelude.{
  ℕ, zero, suc, ◌+◌, ◌/◌, ◌<◌, ◌≡◌, ◌≢◌, ◌∙◌, ap, refl, u32_mod, is_nil, length, ℤ, List, true,
  false, [], some, Bytes, arith, Bool-cases, List-cases, inl, inr,
}
use iot_visual_management_sy.Event.{Event}
use iot_visual_management_sy.Rtos.{MutexApi, QueueApi}
use iot_visual_management_sy.EventQueue
use iot_visual_management_sy.Store.Pure.{Ready, Ready-events, empty_lem}
use iot_visual_management_sy.Store.Invariant.{IsValid}
use iot_visual_management_sy.Uplink.{Uplink, Message}
use iot_visual_management_sy.Application.{
  Application, Task, Round, is_heartbeat, offer, flush_loop, flush_offline_events, flush_if_any,
  publish_or_buffer, restore, process_event, process_received, retry_and_beat, run_round,
  heartbeat_event, heartbeat_due,
}
use iot_visual_management_sy.Application.Offer.{no_text, taken, refused, offer_lem}
use iot_visual_management_sy.Application.Flush.{
  with, round_nil, round_cons, loop_end, loop_again, flush_if_any-Flushed,
}
use iot_visual_management_sy.Application.Publish.{
  direct, kept as buffered, publish_or_buffer_lem, buffer_lem,
}
use iot_visual_management_sy.Application.Order.{Flushed-IsValid}
use iot_visual_management_sy.Application.Sequence.{OrderedNow}
use iot_visual_management_sy.Application.Loop.{process_received-Ordered, flush_if_any-Ordered}
use iot_visual_management_sy.Application.Upheld.{offered, flushed_if_any, received, beaten}

module _ {u : Uplink} {m : MutexApi} (device_id : Bytes) (P : u.World → Type 0)
    (asked : (w : u.World) → P w → P (u.is_connected w).1)
    (serialized : (e : Event) (d v : Bytes) (w : u.World) → P w → P (u.serialize e d v w).1)
    (published : (t : Message) (w : u.World) → P w → P (u.publish t w).1)
    (up : (w : u.World) → P w → (u.is_connected w).0 ≡ true)
    (takes : (e : Event) (w : u.World) → P w → (offer u device_id e w).0 ≢ some false) where
  loop_empties :
      (fuel : ℕ) (a : Application u m)
      → Ready a.offline_store
      → length a.offline_store.events < fuel
      → P a.world
      → (flush_loop device_id fuel a).offline_store.events ≡ []
  loop_empties zero a r h p = absurd (omega arith)
  loop_empties (suc fuel) a r h p = elim (List-cases a.offline_store.events) [
    | inl nothing ↦ rw (loop_end device_id fuel a a (round_nil device_id a r nothing)) nothing
    | inr (e, es, at) ↦
        let o = offer u device_id e a.world in
        let q = offered u device_id P serialized published e a.world p in
        let more =
          loop_empties fuel (with device_id a es o.1) (Ready-events a.offline_store es r)
            (omega (arith, ap length at)) q in
        let round = round_cons device_id a e es r at in
        elim (offer_lem u device_id e a.world) [
          | no_text none_given fails kept ↦
              rw (loop_again device_id fuel a (with device_id a es o.1) (ground (arith, round)))
                more
          | taken did took ↦
              rw (loop_again device_id fuel a (with device_id a es o.1) (ground (arith, round)))
                more
          | refused denied kept ↦ absurd (takes e a.world p denied)
        ]
  ]

  flush_empties :
      (a : Application u m)
      → Ready a.offline_store
      → P a.world
      → (flush_offline_events device_id a).offline_store.events ≡ []
  unfolding flush_offline_events
  flush_empties a r p = rw (up a.world p) (
      loop_empties (suc (length a.offline_store.events))
        (record a { world = (u.is_connected a.world).1 })
        (record { handle = r.handle; created = r.created; free = r.free }) (omega arith)
        (asked a.world p))

  flush_if_any-empties :
      (a : Application u m)
      → Ready a.offline_store
      → P a.world
      → (flush_if_any device_id a).offline_store.events ≡ []
  unfolding flush_if_any
  flush_if_any-empties a r p =
      rw (empty_lem a.offline_store r) (elim (Bool-cases (is_nil a.offline_store.events)) [
        | inl nothing ↦ rw nothing (ground arith)
        | inr some_left ↦ rw some_left (flush_empties a r p)
      ])

  heartbeat_empties :
      (a : Application u m) (now : ℕ) (free_heap : ℤ)
      → IsValid a.offline_store
      → P a.world
      → (process_event device_id a (heartbeat_event now free_heap)).offline_store.events ≡ []
  unfolding process_event restore
  heartbeat_empties a now free_heap v p = published_heartbeat _ _ refl v p
    where
      published_heartbeat :
          (a : Application u m) (e : Event)
          → is_heartbeat e.type ≡ true
          → IsValid a.offline_store
          → P a.world
          → (publish_or_buffer device_id a e).offline_store.events ≡ []
      published_heartbeat a e beat v p =
          let b = flush_if_any device_id a in
          let v' = Flushed-IsValid device_id a b (flush_if_any-Flushed device_id a v.ready) v in
          let nothing = flush_if_any-empties a v.ready p in
          elim (publish_or_buffer_lem device_id a e v.ready v'.ready).1 [
            | direct w none_left connected is took ↦ ap (λ x. x.offline_store.events) is ∙ nothing
            | buffered w why is same ↦
                ap (λ x. x.offline_store.events)
                  (is ∙ buffer_lem device_id (record b { world = w }) e v')
                ∙ rw beat nothing
          ]

  beat_empties :
      (before : List Message) (t : Task u m) (now : ℕ) (free_heap : ℤ)
      → OrderedNow device_id before t.application
      → P t.application.world
      → (retry_and_beat device_id t now free_heap).application.offline_store.events ≡ []
  beat_empties before t now free_heap o p =
      let a = flush_if_any device_id t.application in
      let o' = (flush_if_any-Ordered device_id before t.application o).1 in
      let p' = flushed_if_any device_id P asked serialized published t.application p in
      elim (Bool-cases (heartbeat_due now t.last_heartbeat_ms)) [
        | inl due ↦ rw due (heartbeat_empties a now free_heap o'.valid p')
        | inr early ↦ rw early (flush_if_any-empties t.application o.valid.ready p)
      ]

  pub run_round-empties :
      {api : QueueApi} (before : List Message) (t : Task u m) (r : Round api)
      → t.application.next_sequence_id + 1 < u32_mod
      → OrderedNow device_id before t.application
      → P t.application.world
      → ((run_round device_id t r).0.application.offline_store.events ≡ [])
        × P (run_round device_id t r).0.application.world
  unfolding run_round
  run_round-empties before t r room o p =
      let event = (EventQueue.receive r.queue).0 in
      let a = process_received device_id t.application event in
      let o' = (process_received-Ordered device_id before t.application event room o).1 in
      let p' = received device_id P asked serialized published t.application event p in
      let s = record t { application = a } in
      (
        beat_empties before s (r.time_us / 1000) r.free_heap o' p',
        beaten device_id P asked serialized published s (r.time_us / 1000) r.free_heap p',
      )
