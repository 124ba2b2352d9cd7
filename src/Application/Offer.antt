-- ===== src/Application/Offer.antt =====
-- One event offered to MQTT, and what a drain of the buffer is.
use iot_visual_management_sy.Prelude.{
  ℕ, ◌≡◌, refl, ap, ◌∙◌, Bool, true, false, List, [], ◌∷◌, ◌++◌, Option, none, some, Bytes, arith,
  inl, inr, Bool-cases, List-cases,
}
use iot_visual_management_sy.Config.{firmware_version}
use iot_visual_management_sy.Event.{Event}
use iot_visual_management_sy.Uplink.{Uplink, Message}
use iot_visual_management_sy.Application.{message_of, offer}

module _ (u : Uplink) (device_id : Bytes) where
  -- The message of an event.
  abbrev pub text_of : Event → Message
  text_of e = message_of device_id (u.render e device_id firmware_version)

  -- The serializer gave nothing for the event, at some moment.
  abbrev pub Unserializable : Event → Type 0
  Unserializable e = (w : u.World) × ((u.serialize e device_id firmware_version w).0 ≡ [])

  -- What an offer did: nothing was handed over as there was no text, MQTT took the event's message,
  -- or MQTT refused it.
  pub data Offered (e : Event) (w : u.World) (r : Option Bool × u.World) : Type 0 where
    no_text : r.0 ≡ none → Unserializable e → u.handed r.1 ≡ u.handed w → Offered e w r
    taken : r.0 ≡ some true → u.handed r.1 ≡ u.handed w ++ text_of e ∷ [] → Offered e w r
    refused : r.0 ≡ some false → u.handed r.1 ≡ u.handed w → Offered e w r

  module _ (e : Event) (w : u.World) where
    abbrev text : Bytes × u.World
    text = u.serialize e device_id firmware_version w

    abbrev publication : Bool × u.World
    publication = u.publish (message_of device_id text.0) text.1

    offer_empty : text.0 ≡ [] → offer u device_id e w ≡ (none, text.1)
    unfolding offer
    offer_empty h = rw h

    offer_text :
        (c : ℕ) (cs : Bytes)
        → text.0 ≡ c ∷ cs
        → offer u device_id e w ≡ (some publication.0, publication.1)
    unfolding offer
    offer_text c cs h = ground arith

    rendered : (c : ℕ) (cs : Bytes) → text.0 ≡ c ∷ cs → message_of device_id text.0 ≡ text_of e
    rendered c cs h = elim (u.serialize_text e device_id firmware_version w) [
      | inl empty ↦ cc (h, empty)
      | inr same ↦ ap (message_of device_id) same
    ]

    pub offer_lem : Offered e w (offer u device_id e w)
    offer_lem = elim (List-cases text.0) [
      | inl empty ↦
          rw (offer_empty empty)
            (no_text refl (w, empty) (u.handed-serialize e device_id firmware_version w))
      | inr (c, cs, h) ↦
          let same = u.handed-serialize e device_id firmware_version w in
          rw (offer_text c cs h) (elim (Bool-cases publication.0) [
            | inl accepted ↦ taken (ap some accepted) (
                u.publish_taken _ text.1 accepted
                ∙ ap (λ h. h ++ message_of device_id text.0 ∷ []) same
                ∙ ap (λ m. u.handed w ++ m ∷ []) (rendered c cs h))
            | inr no_room ↦ refused (ap some no_room) (u.publish_refused _ text.1 no_room ∙ same)
          ])
    ]

  -- A drain of the buffer: events leave at the front only, each sent or, if it could not be
  -- serialized, dropped; `sent` are those sent, in order, and `rest` is what stays.
  pub data Drain : List Event → List Event → List Event → Type 0 where
    stop : {es : List Event} → Drain es [] es
    send :
        {e : Event} {es sent rest : List Event}
        → Drain es sent rest
        → Drain (e ∷ es) (e ∷ sent) rest
    drop :
        {e : Event} {es sent rest : List Event}
        → Unserializable e
        → Drain es sent rest
        → Drain (e ∷ es) sent rest

  -- If every event can be serialized, nothing is lost.
  pub Drain-append :
      {es sent rest : List Event}
      → ((e : Event) → ¬ Unserializable e)
      → Drain es sent rest
      → es ≡ sent ++ rest
  Drain-append all stop = refl
  Drain-append all (send {e = e} d) = ap (λ l. e ∷ l) (Drain-append all d)
  Drain-append all (drop {e = e} x d) = absurd (all e x)
