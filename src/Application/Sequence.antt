-- ===== src/Application/Sequence.antt =====
-- The events that the task takes from the queue, one after another: what MQTT took of them, and in
-- which order.
use iot_visual_management_sy.Prelude.{
  ℕ, ◌+◌, ◌≤◌, ◌<◌, ◌≡◌, refl, sym, ap, subst, ◌∙◌, length, next32_lem, u32_mod, List, [], ◌∷◌,
  append-nil, Bytes, arith,
}
use iot_visual_management_sy.Event.{Event}
use iot_visual_management_sy.Rtos.{MutexApi}
use iot_visual_management_sy.Store.Invariant.{IsValid}
use iot_visual_management_sy.Store.Thins.{AscendsBelow}
use iot_visual_management_sy.Uplink.{Uplink, Message}
use iot_visual_management_sy.Application.{
  Application, process_event, flush_offline_events, publish_or_buffer, flush_if_any,
}
use iot_visual_management_sy.Application.Flush.{flush_lem, flush_if_any-Flushed}
use iot_visual_management_sy.Application.Publish.{
  Published, direct, kept as buffered, publish_or_buffer_lem, buffer_lem,
}
use iot_visual_management_sy.Application.Process.{
  Processed, restored, upstream, local, process_event_lem, updated, numbered, advanced,
}
use iot_visual_management_sy.Application.Order.{
  Ordered, Flushed-IsValid, Flushed-Ordered, publish_or_buffer-Ordered,
}

module _ {u : Uplink} {m : MutexApi} (device_id : Bytes) (before : List Message) where
  abbrev pub OrderedNow : Application u m → Type 0
  OrderedNow a = Ordered device_id before a.next_sequence_id a

  Ordered-updated :
      (n : ℕ) (a : Application u m) (e : Event)
      → Ordered device_id before n a
      → Ordered device_id before n (updated device_id a e)
  Ordered-updated n a e o = record {
    sent = o.sent;
    handed = o.handed;
    ascends = o.ascends;
    valid = o.valid;
  }

  Ordered-advanced :
      (n : ℕ) (a : Application u m)
      → Ordered device_id before n a
      → Ordered device_id before n (advanced device_id a)
  Ordered-advanced n a o = record {
    sent = o.sent;
    handed = o.handed;
    ascends = o.ascends;
    valid = o.valid;
  }

  Published-next :
      (a b : Application u m) (e : Event)
      → Published device_id a e b
      → IsValid a.offline_store
      → b.next_sequence_id ≡ a.next_sequence_id
  Published-next a b e (direct w nothing up p took) v = ap (λ x. x.next_sequence_id) p
  Published-next a b e (buffered w why p k) v =
      ap (λ x. x.next_sequence_id) (p ∙ buffer_lem device_id (record a { world = w }) e v)
      ∙ ground arith

  publish_or_buffer-next :
      (a : Application u m) (e : Event)
      → IsValid a.offline_store
      → (publish_or_buffer device_id a e).next_sequence_id ≡ a.next_sequence_id
  publish_or_buffer-next a e v =
      let flushed = flush_if_any-Flushed device_id a v.ready in
      let v' = Flushed-IsValid device_id a (flush_if_any device_id a) flushed v in
      let r = publish_or_buffer_lem device_id a e v.ready v'.ready in
      Published-next _ _ e r.1 v' ∙ ap (λ x. x.next_sequence_id) flushed.rest

  Processed-Ordered :
      (a b : Application u m) (e : Event)
      → a.next_sequence_id + 1 < u32_mod
      → Processed device_id a e b
      → OrderedNow a
      → (b.next_sequence_id ≤ a.next_sequence_id + 1) × OrderedNow b
  Processed-Ordered a b e room (restored h p) o =
      let flushed = (flush_lem device_id a o.valid.ready).0 in
      let n = ap (λ x. x.next_sequence_id) flushed.rest in
      let o' = Flushed-Ordered device_id before _ a _ flushed o in
      rw p (
        omega arith,
        Ordered-updated _ _ e
            (subst (λ k. Ordered device_id before k (flush_offline_events device_id a)) (sym n) o'),
      )
  Processed-Ordered a b e room (upstream h p) o =
      let n =
        publish_or_buffer-next (advanced device_id (updated device_id a e)) (numbered device_id a e)
          o.valid in
      let o' =
        publish_or_buffer-Ordered device_id before a.next_sequence_id
          (advanced device_id (updated device_id a e)) (numbered device_id a e) refl
          (Ordered-advanced _ _ (Ordered-updated _ a e o)) in
      let next = n ∙ next32_lem a.next_sequence_id room in
      rw p (
        omega arith,
        subst
            (λ k. Ordered device_id before k (
              publish_or_buffer device_id (advanced device_id (updated device_id a e))
                (numbered device_id a e)))
            (sym next) o',
      )
  Processed-Ordered a b e room (local h p) o = rw p (omega arith, Ordered-updated _ a e o)

module _ {u : Uplink} {m : MutexApi} (device_id : Bytes) where
  pub process_event-Ordered :
      (before : List Message) (a : Application u m) (e : Event)
      → a.next_sequence_id + 1 < u32_mod
      → OrderedNow device_id before a
      → ((process_event device_id a e).next_sequence_id ≤ a.next_sequence_id + 1)
        × OrderedNow device_id before (process_event device_id a e)
  process_event-Ordered before a e room o =
      Processed-Ordered device_id before a (process_event device_id a e) e room
        (process_event_lem device_id a e o.valid.ready) o

-- `processEvent` for the events that the queue gives, in their order.
unfoldable pub process_all :
    {u : Uplink} {m : MutexApi} → Bytes → Application u m → List Event → Application u m
process_all device_id a [] = a
process_all device_id a (e ∷ es) = process_all device_id (process_event device_id a e) es

module _ {u : Uplink} {m : MutexApi} (device_id : Bytes) where
  process_all-Ordered :
      (before : List Message) (a : Application u m) (es : List Event)
      → a.next_sequence_id + length es < u32_mod
      → OrderedNow device_id before a
      → OrderedNow device_id before (process_all device_id a es)
  unfolding process_all
  process_all-Ordered before a [] room o = o
  process_all-Ordered before a (e ∷ es) room o =
      let r = process_event_lem device_id a e o.valid.ready in
      let next = Processed-Ordered device_id before a _ e (omega arith) r o in
      process_all-Ordered before (process_event device_id a e) es (omega (arith, next.0)) next.1

  -- Whatever events the task takes from the queue, however the connection comes and goes and
  -- whichever messages MQTT refuses: as long as the 32-bit numbers do not run out, what MQTT took
  -- since the start are the messages of some events that ascend in sequence ID, oldest first, the
  -- buffered events continue that order, and the buffer is valid. The start is any state with a valid
  -- buffer whose events ascend below the next number.
  pub process_all-in_order :
      (a : Application u m) (es : List Event)
      → IsValid a.offline_store
      → AscendsBelow a.next_sequence_id a.offline_store.events
      → a.next_sequence_id + length es < u32_mod
      → OrderedNow device_id (u.handed a.world) (process_all device_id a es)
  process_all-in_order a es v at room =
      process_all-Ordered (u.handed a.world) a es room (record {
        sent = [];
        handed = sym (append-nil (u.handed a.world));
        ascends = at;
        valid = v;
      })
