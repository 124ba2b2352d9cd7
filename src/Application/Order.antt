-- ===== src/Application/Order.antt =====
-- The order of what leaves the station: whatever the connection does, the events that MQTT took and
-- those still buffered carry ascending sequence IDs, the buffered ones behind.
use iot_visual_management_sy.Prelude.{
  ℕ, ◌+◌, ◌≤◌, ◌≡◌, sym, ap, subst, ◌∙◌, length, List, [], ◌∷◌, ◌++◌, map, map-append, append-nil,
  append_assoc, Bytes, arith, inl, inr, Bool-cases,
}
use iot_visual_management_sy.Event.{Event}
use iot_visual_management_sy.Rtos.{MutexApi}
use iot_visual_management_sy.Store.Coalesce.{OnePerSource}
use iot_visual_management_sy.Store.Invariant.{IsValid, with_events, push-IsValid}
use iot_visual_management_sy.Store.Push.{push_outcome}
use iot_visual_management_sy.Store.Thins.{
  Thins, Thins-refl, Thins-drop, Thins-cons, Thins-prefix, Thins-kept, AscendsBelow,
  AscendsBelow-Thins, AscendsBelow-snoc, AscendsBelow-more,
}
use iot_visual_management_sy.Uplink.{Uplink, Message}
use iot_visual_management_sy.Application.{
  Application, is_heartbeat, buffer, flush_if_any, publish_or_buffer,
}
use iot_visual_management_sy.Application.Offer.{text_of, Drain, stop, send, drop}
use iot_visual_management_sy.Application.Flush.{Flushed, flush_if_any-Flushed}
use iot_visual_management_sy.Application.Publish.{
  Published, direct, kept as buffered, publish_or_buffer_lem, buffer_lem,
}

Drain-Thins :
    {u : Uplink} {device_id : Bytes} {es sent rest : List Event}
    → Drain u device_id es sent rest
    → Thins es (sent ++ rest)
Drain-Thins {es} stop = Thins-refl es
Drain-Thins (send {e = e} d) = Thins-cons e (Drain-Thins d)
Drain-Thins (drop {e = e} x d) = Thins-drop e (Drain-Thins d)

-- What a drain leaves is an end of what was there.
Drain-suffix :
    {u : Uplink} {device_id : Bytes} {es sent rest : List Event}
    → Drain u device_id es sent rest
    → (length rest ≤ length es) × (OnePerSource es → OnePerSource rest)
Drain-suffix stop = (omega arith, λ h. h)
Drain-suffix (send d) = let r = Drain-suffix d in (omega arith, λ h. r.1 h.1)
Drain-suffix (drop x d) = let r = Drain-suffix d in (omega arith, λ h. r.1 h.1)

module _ {u : Uplink} {m : MutexApi} (device_id : Bytes) where
  pub Flushed-IsValid :
      (a b : Application u m)
      → Flushed device_id a b
      → IsValid a.offline_store
      → IsValid b.offline_store
  Flushed-IsValid a b f v =
      let d = Drain-suffix f.drain in
      rw f.rest (
        with_events a.offline_store v.ready b.offline_store.events a.offline_store.coalesced_count
          (omega (arith, v.bounded, d.0)) (d.1 v.one_per_source))

  -- After the messages that were there before, MQTT took those of the events `sent`, in that order;
  -- they and the buffered events behind them ascend, below `n`.
  pub record Ordered (before : List Message) (n : ℕ) (a : Application u m) : Type 0 where
    pub sent : List Event
    pub handed : u.handed a.world ≡ before ++ map (text_of u device_id) sent
    pub ascends : AscendsBelow n (sent ++ a.offline_store.events)
    pub valid : IsValid a.offline_store

  module _ (before : List Message) (n : ℕ) where
    pub Flushed-Ordered :
        (a b : Application u m) → Flushed device_id a b → Ordered before n a → Ordered before n b
    Flushed-Ordered a b f o = record {
      sent = o.sent ++ f.sent;
      handed =
          f.handed
          ∙ ap (λ h. h ++ map (text_of u device_id) f.sent) o.handed
          ∙ append_assoc before _ _
          ∙ ap (λ h. before ++ h) (sym (map-append _ o.sent f.sent));
      ascends =
          subst (AscendsBelow n) (sym (append_assoc o.sent f.sent b.offline_store.events))
            (AscendsBelow-Thins (Thins-prefix o.sent (Drain-Thins f.drain)) o.ascends);
      valid = Flushed-IsValid a b f o.valid;
    }

    buffer-Ordered :
        (a : Application u m) (e : Event)
        → e.sequence_id ≡ n
        → Ordered before n a
        → Ordered before (n + 1) (buffer a e)
    buffer-Ordered a e at o =
        let thin =
          AscendsBelow-Thins (Thins-prefix o.sent (Thins-kept e.source_id a.offline_store.events))
            o.ascends in
        let valid = push-IsValid a.offline_store e o.valid in
        rw (buffer_lem device_id a e o.valid) (elim (Bool-cases (is_heartbeat e.type)) [
          | inl beat ↦ rw beat (record {
            sent = o.sent;
            handed = o.handed;
            ascends = AscendsBelow-more _ o.ascends;
            valid = o.valid;
          })
          | inr other ↦ rw other (record {
            sent = o.sent;
            handed = o.handed;
            ascends = elim (push_outcome a.offline_store o.valid e) [
              | inl (full, p) ↦ rw p (AscendsBelow-more _ thin)
              | inr (room, p) ↦ rw p (
                  subst (AscendsBelow (n + 1)) (append_assoc o.sent _ (e ∷ []))
                    (AscendsBelow-snoc n _ e at thin))
            ];
            valid = valid;
          })
        ])

    Published-Ordered :
        (a b : Application u m) (e : Event)
        → e.sequence_id ≡ n
        → Published device_id a e b
        → Ordered before n a
        → Ordered before (n + 1) b
    Published-Ordered a b e at (direct w nothing up p took) o = rw p (record {
      sent = o.sent ++ e ∷ [];
      handed =
          took
          ∙ ap (λ h. h ++ text_of u device_id e ∷ []) o.handed
          ∙ append_assoc before _ _
          ∙ ap (λ h. before ++ h) (sym (map-append _ o.sent (e ∷ [])));
      ascends = rw nothing (
          subst (AscendsBelow (n + 1)) (sym (append-nil (o.sent ++ e ∷ []))) (
            AscendsBelow-snoc n o.sent e at (
              subst (AscendsBelow n) (ap (λ h. o.sent ++ h) nothing ∙ append-nil o.sent)
                o.ascends)));
      valid = o.valid;
    })
    Published-Ordered a b e at (buffered w why p k) o = rw p (
        buffer-Ordered (record a { world = w }) e at
          (record { sent = o.sent; handed = k ∙ o.handed; ascends = o.ascends; valid = o.valid }))

    pub publish_or_buffer-Ordered :
        (a : Application u m) (e : Event)
        → e.sequence_id ≡ n
        → Ordered before n a
        → Ordered before (n + 1) (publish_or_buffer device_id a e)
    publish_or_buffer-Ordered a e at o =
        let flushed = flush_if_any-Flushed device_id a o.valid.ready in
        let o' = Flushed-Ordered a (flush_if_any device_id a) flushed o in
        let r = publish_or_buffer_lem device_id a e o.valid.ready o'.valid.ready in
        Published-Ordered _ _ e at r.1 o'
