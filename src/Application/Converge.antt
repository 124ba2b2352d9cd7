-- ===== src/Application/Converge.antt =====
-- Nothing is lost: for every physical source, what MQTT took and the buffer together end with the
-- latest value.
use iot_visual_management_sy.Prelude.{
  ℕ, ◌≤◌, ◌≡◌, refl, sym, ℤ, true, List, [], ◌∷◌, append-nil, All, Option, none, Bytes,
}
use iot_visual_management_sy.Event.{Event}
use iot_visual_management_sy.Rtos.{MutexApi}
use iot_visual_management_sy.Store.Invariant.{IsValid}
use iot_visual_management_sy.Uplink.{Uplink, Message}
use iot_visual_management_sy.Application.{Application, should_publish, process_event}
use iot_visual_management_sy.Application.Offer.{Unserializable}
use iot_visual_management_sy.Application.Process.{process_event_lem}
use iot_visual_management_sy.Application.Sequence.{process_all}
use iot_visual_management_sy.Application.LastValue.{last_value}
use iot_visual_management_sy.Application.Holds.{Fine, told, Holds, Processed-Holds}

-- The last value of the source `j` in a history of events, among those that go upstream.
unfoldable pub told_after : ℕ → Option ℤ → List Event → Option ℤ
told_after j v [] = v
told_after j v (e ∷ es) = told_after j (told j v e) es

module _ {u : Uplink} {m : MutexApi} (device_id : Bytes) (k j : ℕ)
    (sure : (e : Event) → ¬ Unserializable u device_id e) where
  process_all-Holds :
      (before : List Message) (v : Option ℤ) (a : Application u m) (es : List Event)
      → All (λ e. should_publish e.type ≡ true → Fine k j e) es
      → Holds device_id k j before v a
      → Holds device_id k j before (told_after j v es) (process_all device_id a es)
  unfolding process_all told_after
  process_all-Holds before v a [] fine o = o
  process_all-Holds before v a (e ∷ es) fine o =
      process_all-Holds before (told j v e) (process_event device_id a e) es fine.1 (
        Processed-Holds device_id k j before sure v a _ e fine.0
          (process_event_lem device_id a e o.valid.ready) o)

  -- No value is lost. If the serializer never gives an empty text, the buffer starts valid and
  -- empty with at least `k` slots, and every event that goes upstream is a heartbeat, which is not
  -- of the source `j`, or comes from one of the sources 1 to `k`: after any events, whatever the
  -- connection does and MQTT refuses, the last value of `j` in the events whose messages MQTT took
  -- since the start, followed by those buffered, is the last value that an event of `j` brought,
  -- if any did.
  pub process_all_converges :
      (a : Application u m) (es : List Event)
      → IsValid a.offline_store
      → a.offline_store.events ≡ []
      → k ≤ a.offline_store.capacity
      → All (λ e. should_publish e.type ≡ true → Fine k j e) es
      → Holds device_id k j (u.handed a.world) (told_after j none es) (process_all device_id a es)
  unfolding last_value
  process_all_converges a es v nothing fits fine =
      process_all-Holds (u.handed a.world) none a es fine (record {
        sent = [];
        handed = sym (append-nil (u.handed a.world));
        last = rw nothing refl;
        valid = v;
        physical = rw nothing tt;
        fits = fits;
      })
