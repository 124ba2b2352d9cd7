-- ===== src/Application/Publish.antt =====
-- `publishOrBuffer` and `processEvent`, on every branch.
use iot_visual_management_sy.Prelude.{
  ◌≡◌, refl, ap, ◌∙◌, Bool, true, false, List, some, [], ◌∷◌, ◌++◌, Bytes, arith, inl, inr,
  Bool-cases, List-cases, if◌then◌else◌,
}
use iot_visual_management_sy.Event.{Event}
use iot_visual_management_sy.Rtos.{MutexApi}
use iot_visual_management_sy.Store.{Store}
use iot_visual_management_sy.Store
use iot_visual_management_sy.Store.Pure.{Ready, empty_lem, size_lem, coalesced_lem}
use iot_visual_management_sy.Store.Invariant.{IsValid, push-IsValid}
use iot_visual_management_sy.Uplink.{Uplink}
use iot_visual_management_sy.Application.{
  Application, offer, is_heartbeat, flush_if_any, publish_now, buffer, publish_or_buffer,
}
use iot_visual_management_sy.Application.Offer.{
  text_of, Unserializable, no_text, taken, refused, offer_lem,
}
use iot_visual_management_sy.Application.Flush.{Flushed, flush_if_any-Flushed}

module _ {u : Uplink} {m : MutexApi} (device_id : Bytes) where
  -- Why an event's message is not handed over directly: something older waits, the station is not
  -- connected, the serializer gave no text, or MQTT refused the message.
  pub data Hindrance (a : Application u m) (e : Event) : Type 0 where
    older : (x : Event) (xs : List Event) → a.offline_store.events ≡ x ∷ xs → Hindrance a e
    not_connected : (u.is_connected a.world).0 ≡ false → Hindrance a e
    unserializable : Unserializable u device_id e → Hindrance a e
    rejected : (w : u.World) → (offer u device_id e w).0 ≡ some false → Hindrance a e

  -- What `publishOrBuffer` leaves for an event, once older events were retried: nothing older waits,
  -- the station is connected, and MQTT took the event's message; or something hindered it, and the
  -- event is buffered (or is a heartbeat), with nothing handed over.
  pub data Published (a : Application u m) (e : Event) (b : Application u m) : Type 0 where
    direct :
        (w : u.World)
        → a.offline_store.events ≡ []
        → (u.is_connected a.world).0 ≡ true
        → b ≡ record a { world = w }
        → u.handed w ≡ u.handed a.world ++ text_of u device_id e ∷ []
        → Published a e b
    kept :
        (w : u.World)
        → Hindrance a e
        → b ≡ buffer (record a { world = w }) e
        → u.handed w ≡ u.handed a.world
        → Published a e b

  -- The outcome of the direct attempt, for a buffer with its mutex free.
  pub data Attempt (a : Application u m) (e : Event) (r : Application u m × Bool) : Type 0 where
    accepted :
        (w : u.World)
        → a.offline_store.events ≡ []
        → (u.is_connected a.world).0 ≡ true
        → r ≡ (record a { world = w }, true)
        → u.handed w ≡ u.handed a.world ++ text_of u device_id e ∷ []
        → Attempt a e r
    not_accepted :
        (w : u.World)
        → Hindrance a e
        → r ≡ (record a { world = w }, false)
        → u.handed w ≡ u.handed a.world
        → Attempt a e r

  publish_now_lem :
      (a : Application u m) (e : Event)
      → Ready a.offline_store
      → Attempt a e (publish_now device_id a e)
  unfolding publish_now
  publish_now_lem a e r =
      let w1 = (u.is_connected a.world).1 in
      let w2 = (offer u device_id e w1).1 in
      let same = u.handed-is_connected a.world in
      let free = empty_lem a.offline_store r in
      elim (List-cases a.offline_store.events) [
        | inr (x, xs, waits) ↦ not_accepted a.world (older x xs waits) (ground (arith, free)) refl
        | inl nothing ↦ elim (Bool-cases (u.is_connected a.world).0) [
          | inr down ↦ not_accepted w1 (not_connected down) (ground (arith, free)) same
          | inl up ↦ elim (offer_lem u device_id e w1) [
            | no_text p fails k ↦
                not_accepted w2 (unserializable fails) (ground (arith, free)) (k ∙ same)
            | taken p took ↦
                accepted w2 nothing up (ground (arith, free))
                  (took ∙ ap (λ h. h ++ text_of u device_id e ∷ []) same)
            | refused p k ↦ not_accepted w2 (rejected w1 p) (ground (arith, free)) (k ∙ same)
          ]
        ]
      ]

  -- `publishOrBuffer`: older events are retried first; then the event is handed over directly if
  -- nothing older waits and MQTT takes it, and is buffered otherwise.
  pub publish_or_buffer_lem :
      (a : Application u m) (e : Event)
      → Ready a.offline_store
      → Ready (flush_if_any device_id a).offline_store
      → Flushed device_id a (flush_if_any device_id a)
        × Published (flush_if_any device_id a) e (publish_or_buffer device_id a e)
  unfolding publish_or_buffer
  publish_or_buffer_lem a e r r' = (
    flush_if_any-Flushed device_id a r,
    elim (publish_now_lem (flush_if_any device_id a) e r') [
      | accepted w nothing up p took ↦ rw p (direct w nothing up refl took)
      | not_accepted w why p k ↦ rw p (kept w why refl k)
    ],
  )

  pub buffer_lem :
      (a : Application u m) (e : Event)
      → IsValid a.offline_store
      → buffer a e ≡ (
          if is_heartbeat e.type
          then a
          else record a { offline_store = (Store.push a.offline_store e).1 })
  unfolding buffer
  buffer_lem a e v =
      let v' = push-IsValid a.offline_store e v in
      ground (
        arith,
        size_lem (Store.push a.offline_store e).1 v'.ready,
        coalesced_lem (Store.push a.offline_store e).1 v'.ready,
      )
