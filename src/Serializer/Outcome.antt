-- ===== src/Serializer/Outcome.antt =====
-- What `serializeEvent` may give: the text of an event, and the calls of cJSON that decide.
use iot_visual_management_sy.Prelude.{
  ◌≡◌, refl, ℤ, pos, Bool, true, false, none, some, codes, List, [], ◌∷◌, Option, Bytes, Bool-cases,
  inl, inr,
}
use iot_visual_management_sy.Event.{Event}
use iot_visual_management_sy.Cjson.{CjsonApi}
use iot_visual_management_sy.Serializer.{
  event_type_to_string, or_unknown, Field, string_field, number_field, add_fields,
}

-- The seven fields of an event's message, in their order, by the calls that add them.
abbrev pub seven : Event → Bytes → Bytes → List Field
seven e device version =
    string_field (codes "device_id") device
    ∷ number_field (codes "sequence_id") (pos e.sequence_id)
    ∷ string_field (codes "event_type") (event_type_to_string e.type)
    ∷ number_field (codes "source_id") (pos e.source_id)
    ∷ number_field (codes "value") e.value
    ∷ number_field (codes "timestamp_ms") (pos e.timestamp_ms)
    ∷ string_field (codes "firmware_version") version
    ∷ []

-- A text, or what stands for a null pointer.
abbrev pub given : Option Bytes → Bytes
given none = codes "unknown"
given (some s) = s

pub given-or_unknown : (o : Option Bytes) → or_unknown o ≡ given o
given-or_unknown none = refl
given-or_unknown (some s) = refl

module _ (json : CjsonApi) where
  abbrev pub with_field : json.Fields → Field → json.Fields
  with_field fs (string_field name value) = json.with_string fs name value
  with_field fs (number_field name value) = json.with_number fs name (json.of_int value)

  unfoldable pub with_fields : json.Fields → List Field → json.Fields
  with_fields fs [] = fs
  with_fields fs (f ∷ rest) = with_fields (with_field fs f) rest

  -- The text of the object with the seven fields of the event.
  unfoldable pub event_text : Event → Option Bytes → Option Bytes → Bytes
  event_text e d v = json.text (with_fields json.no_fields (seven e (given d) (given v)))

  -- The calls that add the fields, from the first to the one that fails: whether all of them succeed,
  -- and the memory then.
  pub data Adds (root : json.Node) : List Field → json.Heap → Bool → json.Heap → Type 0 where
    all_added : {h : json.Heap} → Adds root [] h true h
    string_added :
        {k s : Bytes} {fs : List Field} {h h' : json.Heap} {all : Bool}
        → (json.add_string root k s h).0 ≡ true
        → Adds root fs (json.add_string root k s h).1 all h'
        → Adds root (string_field k s ∷ fs) h all h'
    number_added :
        {k : Bytes} {n : ℤ} {fs : List Field} {h h' : json.Heap} {all : Bool}
        → (json.add_number root k (json.of_int n) h).0 ≡ true
        → Adds root fs (json.add_number root k (json.of_int n) h).1 all h'
        → Adds root (number_field k n ∷ fs) h all h'
    string_failed :
        {k s : Bytes} {fs : List Field} {h : json.Heap}
        → (json.add_string root k s h).0 ≡ false
        → Adds root (string_field k s ∷ fs) h false (json.add_string root k s h).1
    number_failed :
        {k : Bytes} {n : ℤ} {fs : List Field} {h : json.Heap}
        → (json.add_number root k (json.of_int n) h).0 ≡ false
        → Adds root (number_field k n ∷ fs) h false (json.add_number root k (json.of_int n) h).1

  -- The outcome: the text if every call of cJSON succeeds, and the empty string if one fails.
  pub data Serialized (e : Event) (d v : Option Bytes) (h : json.Heap) (s : Bytes) : Type 0 where
    no_object : (json.create_object h).0 ≡ none → s ≡ [] → Serialized e d v h s
    no_field :
        (root : json.Node) (h' : json.Heap)
        → (json.create_object h).0 ≡ some root
        → Adds root (seven e (given d) (given v)) (json.create_object h).1 false h'
        → s ≡ []
        → Serialized e d v h s
    no_text :
        (root : json.Node) (h' : json.Heap)
        → (json.create_object h).0 ≡ some root
        → Adds root (seven e (given d) (given v)) (json.create_object h).1 true h'
        → (json.print_unformatted root h').0 ≡ none
        → s ≡ []
        → Serialized e d v h s
    printed :
        (root : json.Node) (h' : json.Heap) (t : Bytes)
        → (json.create_object h).0 ≡ some root
        → Adds root (seven e (given d) (given v)) (json.create_object h).1 true h'
        → (json.print_unformatted root h').0 ≡ some t
        → s ≡ event_text e d v
        → Serialized e d v h s

  pub add_fields-Adds :
      (root : json.Node) (fs : List Field) (h : json.Heap)
      → Adds root fs h (add_fields json root fs h).0 (add_fields json root fs h).1
  unfolding add_fields
  add_fields-Adds root [] h = all_added
  add_fields-Adds root (string_field k s ∷ fs) h =
      elim (Bool-cases (json.add_string root k s h).0) [
        | inl added ↦ rw added (string_added added (add_fields-Adds root fs _))
        | inr failed ↦ rw failed (string_failed failed)
      ]
  add_fields-Adds root (number_field k n ∷ fs) h =
      elim (Bool-cases (json.add_number root k (json.of_int n) h).0) [
        | inl added ↦ rw added (number_added added (add_fields-Adds root fs _))
        | inr failed ↦ rw failed (number_failed failed)
      ]
