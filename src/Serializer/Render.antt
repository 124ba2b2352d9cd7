-- ===== src/Serializer/Render.antt =====
-- What `serializeEvent` gives, and that it leaves nothing of cJSON behind.
use iot_visual_management_sy.Prelude.{
  ◌≡◌, ◌⊎◌, refl, subst, true, none, some, ◌∙◌, ap, ◌-◌, List, [], ◌∷◌, Option, Bytes, arith,
  Option-cases, Bool-cases, inl, inr,
}
use iot_visual_management_sy.Event.{Event}
use iot_visual_management_sy.Cjson.{CjsonApi}
use iot_visual_management_sy.Serializer.{
  Field, string_field, number_field, event_fields, add_field, add_fields, print_object,
  serialize_event,
}
use iot_visual_management_sy.Serializer.Outcome.{
  with_field, with_fields, seven, given, event_text, Adds, Serialized, no_object, no_field, no_text,
  printed, given-or_unknown, add_fields-Adds,
}

module _ (json : CjsonApi) where
  add_field_lem :
      (root : json.Node) (f : Field) (h : json.Heap)
      → (json.live (add_field json root f h).1 ≡ json.live h)
        × ((add_field json root f h).0 ≡ true
            → json.fields root (add_field json root f h).1 ≡ with_field json (json.fields root h) f)
  add_field_lem root (string_field k s) h =
      (json.live-add_string root k s h, json.fields-add_string root k s h)
  add_field_lem root (number_field k n) h = (
    json.live-add_number root k (json.of_int n) h,
    json.fields-add_number root k (json.of_int n) h,
  )

  add_fields_lem :
      (root : json.Node) (fs : List Field) (h : json.Heap)
      → (json.live (add_fields json root fs h).1 ≡ json.live h)
        × ((add_fields json root fs h).0 ≡ true
            → json.fields root (add_fields json root fs h).1
              ≡ with_fields json (json.fields root h) fs)
  unfolding add_fields with_fields
  add_fields_lem root [] h = (refl, λ _. refl)
  add_fields_lem root (f ∷ fs) h =
      let one = add_field_lem root f h in
      let more = add_fields_lem root fs (add_field json root f h).1 in
      elim (Bool-cases (add_field json root f h).0) [
        | inl added ↦
            rw added
              (more.0 ∙ one.0, λ all. more.1 all ∙ ap (λ x. with_fields json x fs) (one.1 added))
        | inr failed ↦ rw failed (one.0, λ all. absurd (ground arith))
      ]

  print_object_lem :
      (root : json.Node) (h : json.Heap)
      → (json.live (print_object json root h).1 ≡ json.live h - 1)
        × ((((json.print_unformatted root h).0 ≡ none) × ((print_object json root h).0 ≡ []))
            ⊎ ((t : Bytes) × ((json.print_unformatted root h).0 ≡ some t)
                × ((print_object json root h).0 ≡ json.text (json.fields root h))))
  unfolding print_object
  print_object_lem root h =
      let r = json.print_unformatted root h in
      let printed = json.live-print_unformatted root h in
      elim (Option-cases r.0) [
        | inl failed ↦
            rw (print_object, failed)
              (ground (arith, printed, json.live-delete root r.1), inl (refl, refl))
        | inr (s, text) ↦
            rw (print_object, text)
              (
                ground (arith, printed, json.live-free r.1, json.live-delete root (json.free r.1)),
                inr (s, refl, json.print_text root h s text),
              )
      ]

  -- `serializeEvent` gives the text of the object with the event's seven fields if every call of
  -- cJSON succeeds, and the empty string if one fails: making the object, adding one of the
  -- fields, or printing. The event's type goes by the name that `eventTypeToString` gives. Either
  -- way it released every tree and string that it was given.
  pub serialize_event_lem :
      (e : Event) (d v : Option Bytes) (h : json.Heap)
      → (json.live (serialize_event json e d v h).1 ≡ json.live h)
        × Serialized json e d v h (serialize_event json e d v h).0
  unfolding serialize_event event_text
  serialize_event_lem e d v h =
      let r = json.create_object h in
      let made = json.live-create_object h in
      let fs = event_fields e d v in
      let same : fs ≡ seven e (given d) (given v) =
        rw (given-or_unknown d, given-or_unknown v) refl in
      elim (Option-cases r.0) [
        | inl failed ↦ rw (serialize_event, failed) (ground (arith, made), no_object failed refl)
        | inr (root, created) ↦
            let fill = add_fields_lem root fs r.1 in
            let a = add_fields json root fs r.1 in
            let print = print_object_lem root a.1 in
            let adds =
              subst (λ x. Adds json root x r.1 a.0 a.1) same (add_fields-Adds json root fs r.1) in
            elim (Bool-cases a.0) [
              | inr incomplete ↦
                  rw (serialize_event, created, incomplete)
                    (
                      ground (arith, made, fill.0, json.live-delete root a.1),
                      no_field root a.1 created
                          (subst (λ b. Adds json root (seven e (given d) (given v)) r.1 b a.1)
                            incomplete adds)
                          refl,
                    )
              | inl complete ↦
                  let whole =
                    subst (λ b. Adds json root (seven e (given d) (given v)) r.1 b a.1) complete
                      adds in
                  rw (serialize_event, created, complete)
                    (
                      print.0 ∙ ground (arith, made, fill.0),
                      elim print.1 [
                        | inl (unprinted, empty) ↦ no_text root a.1 created whole unprinted empty
                        | inr (t, text, is) ↦ printed root a.1 t created whole text (
                            is
                            ∙ ap json.text (
                                fill.1 complete
                                ∙ ap (λ x. with_fields json x fs)
                                    (json.fields-create_object h root created)
                                ∙ ap (with_fields json json.no_fields) same))
                      ],
                    )
            ]
      ]

  -- The text is the event's, or empty.
  pub serialize_event_text :
      (e : Event) (d v : Option Bytes) (h : json.Heap)
      → ((serialize_event json e d v h).0 ≡ [])
        ⊎ ((serialize_event json e d v h).0 ≡ event_text json e d v)
  serialize_event_text e d v h = elim (serialize_event_lem e d v h).1 [
    | no_object failed empty ↦ inl empty
    | no_field root h' created adds empty ↦ inl empty
    | no_text root h' created adds unprinted empty ↦ inl empty
    | printed root h' t created adds text is ↦ inr is
  ]
