-- ===== src/Application/Holds.antt =====
-- What MQTT took and the buffer together end with the latest value of a source: the state that says
-- so, kept by each step of the application.
use iot_visual_management_sy.Prelude.{
  ℕ, ◌≤◌, ◌≡◌, ◌≢◌, ◌⊎◌, sym, ap, subst, ◌∙◌, ℤ, true, false, List, [], ◌∷◌, ◌++◌, map, map-append,
  append-nil, append_assoc, All, All-append, Option, Bytes, arith, inl, inr, if◌then◌else◌,
}
use iot_visual_management_sy.Event.{Event}
use iot_visual_management_sy.Rtos.{MutexApi}
use iot_visual_management_sy.Store.{push}
use iot_visual_management_sy.Store.Coalesce.{All-kept}
use iot_visual_management_sy.Store.Invariant.{IsValid, push-IsValid}
use iot_visual_management_sy.Store.Push.{push_outcome}
use iot_visual_management_sy.Store.Outage.{IsPhysical, push_accepted}
use iot_visual_management_sy.Uplink.{Uplink, Message}
use iot_visual_management_sy.Application.{
  Application, should_publish, is_heartbeat, flush_if_any, publish_or_buffer,
}
use iot_visual_management_sy.Application.Offer.{text_of, Unserializable, Drain-append}
use iot_visual_management_sy.Application.Flush.{Flushed, flush_lem, flush_if_any-Flushed}
use iot_visual_management_sy.Application.Publish.{
  Published, direct, kept as buffered, publish_or_buffer_lem, buffer_lem,
}
use iot_visual_management_sy.Application.Process.{
  Processed, restored, upstream, local, updated, numbered, advanced,
}
use iot_visual_management_sy.Application.Order.{Flushed-IsValid}
use iot_visual_management_sy.Application.LastValue.{
  last_value, later_value, last_value-snoc, last_value-pushed,
}

All-suffix : (P : Event → Type 0) (xs ys : List Event) → All P (xs ++ ys) → All P ys
All-suffix P [] ys h = h
All-suffix P (x ∷ xs) ys h = All-suffix P xs ys h.1

-- An event that goes upstream is a heartbeat, which is not of the source `j`, or comes from one of
-- the sources 1 to `k`.
abbrev pub Fine : ℕ → ℕ → Event → Type 0
Fine k j e =
    ((is_heartbeat e.type ≡ true) × (e.source_id ≢ j))
    ⊎ ((is_heartbeat e.type ≡ false) × IsPhysical k e)

-- The value after an event: only one that goes upstream counts.
abbrev pub told : ℕ → Option ℤ → Event → Option ℤ
told j v e = if should_publish e.type then later_value j v e else v

module _ {u : Uplink} {m : MutexApi} (device_id : Bytes) (k j : ℕ) (before : List Message) where
  -- After the messages of before, MQTT took those of `sent`; the last value of the source `j` in these
  -- and the buffered events is `v`. The buffer holds events of the sources 1 to `k` only, with a slot
  -- for each.
  pub record Holds (v : Option ℤ) (a : Application u m) : Type 0 where
    pub sent : List Event
    pub handed : u.handed a.world ≡ before ++ map (text_of u device_id) sent
    pub last : last_value j (sent ++ a.offline_store.events) ≡ v
    pub valid : IsValid a.offline_store
    pub physical : All (IsPhysical k) a.offline_store.events
    pub fits : k ≤ a.offline_store.capacity

  module _ (sure : (e : Event) → ¬ Unserializable u device_id e) where
    pub Flushed-Holds :
        (v : Option ℤ) (a b : Application u m) → Flushed device_id a b → Holds v a → Holds v b
    Flushed-Holds v a b f o =
        let whole = Drain-append u device_id sure f.drain in
        record {
          sent = o.sent ++ f.sent;
          handed =
              f.handed
              ∙ ap (λ h. h ++ map (text_of u device_id) f.sent) o.handed
              ∙ append_assoc before _ _
              ∙ ap (λ h. before ++ h) (sym (map-append _ o.sent f.sent));
          last =
              ap (last_value j) (
                append_assoc o.sent f.sent b.offline_store.events
                ∙ ap (λ h. o.sent ++ h) (sym whole))
              ∙ o.last;
          valid = Flushed-IsValid device_id a b f o.valid;
          physical =
              All-suffix (IsPhysical k) f.sent b.offline_store.events
                (subst (All (IsPhysical k)) whole o.physical);
          fits = subst (λ c. k ≤ c) (sym (ap (λ x. x.offline_store.capacity) f.rest)) o.fits;
        }

    pushed-Holds :
        (v : Option ℤ) (a : Application u m) (e : Event)
        → IsPhysical k e
        → Holds v a
        → Holds (later_value j v e) (record a { offline_store = (push a.offline_store e).1 })
    pushed-Holds v a e p o =
        let accepted = push_accepted k a.offline_store e o.valid o.physical o.fits p in
        elim (push_outcome a.offline_store o.valid e) [
          | inl (full, r) ↦ absurd (ground arith)
          | inr (room, r) ↦ record {
            sent = o.sent;
            handed = o.handed;
            last = rw r (
                last_value-pushed j o.sent a.offline_store.events e p.0
                ∙ ap (λ x. later_value j x e) o.last);
            valid = push-IsValid a.offline_store e o.valid;
            physical = rw r (
                All-append (IsPhysical k) _ (e ∷ [])
                  (All-kept (IsPhysical k) e.source_id a.offline_store.events o.physical) (p, tt));
            fits = rw r o.fits;
          }
        ]

    Published-Holds :
        (v : Option ℤ) (a b : Application u m) (e : Event)
        → Fine k j e
        → Published device_id a e b
        → Holds v a
        → Holds (later_value j v e) b
    Published-Holds v a b e fine (direct w nothing up p took) o = rw p (record {
      sent = o.sent ++ e ∷ [];
      handed =
          took
          ∙ ap (λ h. h ++ text_of u device_id e ∷ []) o.handed
          ∙ append_assoc before _ _
          ∙ ap (λ h. before ++ h) (sym (map-append _ o.sent (e ∷ [])));
      last =
          ap (λ es. last_value j ((o.sent ++ e ∷ []) ++ es)) nothing
          ∙ ap (last_value j) (append-nil (o.sent ++ e ∷ []))
          ∙ last_value-snoc j o.sent e
          ∙ ap (λ x. later_value j x e)
              (ap (last_value j) (sym (append-nil o.sent) ∙ ap (λ es. o.sent ++ es) (sym nothing))
                ∙ o.last);
      valid = o.valid;
      physical = o.physical;
      fits = o.fits;
    })
    Published-Holds v a b e fine (buffered w why p same) o =
        let a' = record a { world = w } in
        let o' : Holds v a' = record {
          sent = o.sent;
          handed = same ∙ o.handed;
          last = o.last;
          valid = o.valid;
          physical = o.physical;
          fits = o.fits;
        } in
        let is = buffer_lem device_id a' e o.valid in
        elim fine [
          | inl (beat, other) ↦
              let keeps : later_value j v e ≡ v = ground arith in rw (p, is, beat, keeps) o'
          | inr (kind, physical) ↦ rw (p, is, kind) (pushed-Holds v a' e physical o')
        ]

    publish_or_buffer-Holds :
        (v : Option ℤ) (a : Application u m) (e : Event)
        → Fine k j e
        → Holds v a
        → Holds (later_value j v e) (publish_or_buffer device_id a e)
    publish_or_buffer-Holds v a e fine o =
        let flushed = flush_if_any-Flushed device_id a o.valid.ready in
        let o' = Flushed-Holds v a (flush_if_any device_id a) flushed o in
        let r = publish_or_buffer_lem device_id a e o.valid.ready o'.valid.ready in
        Published-Holds v _ _ e fine r.1 o'

    pub Processed-Holds :
        (v : Option ℤ) (a b : Application u m) (e : Event)
        → (should_publish e.type ≡ true → Fine k j e)
        → Processed device_id a e b
        → Holds v a
        → Holds (told j v e) b
    Processed-Holds v a b e fine (restored h p) o =
        let o' = Flushed-Holds v a _ (flush_lem device_id a o.valid.ready).0 o in
        rw (h, p)
          (record {
            sent = o'.sent;
            handed = o'.handed;
            last = o'.last;
            valid = o'.valid;
            physical = o'.physical;
            fits = o'.fits;
          })
    Processed-Holds v a b e fine (upstream h p) o =
        rw (h, p)
          (publish_or_buffer-Holds v (advanced device_id (updated device_id a e))
            (numbered device_id a e) (fine h)
            (record {
              sent = o.sent;
              handed = o.handed;
              last = o.last;
              valid = o.valid;
              physical = o.physical;
              fits = o.fits;
            }))
    Processed-Holds v a b e fine (local h p) o =
        rw (h, p)
          (record {
            sent = o.sent;
            handed = o.handed;
            last = o.last;
            valid = o.valid;
            physical = o.physical;
            fits = o.fits;
          })
