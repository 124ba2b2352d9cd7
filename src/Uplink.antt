-- ===== src/Uplink.antt =====
-- What the application needs of the way to the broker: the calls of MessageSerializer and
-- MqttManager that it makes, a view of what MQTT took, and their laws. Uplink/Station.antt fills it
-- from the two components.
pub mod Host
pub mod Station
use iot_visual_management_sy.Prelude.{ℕ, ◌≡◌, ◌⊎◌, Bool, true, false, List, [], ◌∷◌, ◌++◌, Bytes}
use iot_visual_management_sy.Event.{Event}

-- One call of `publish`.
pub record Message : Type 0 where
  pub topic : Bytes
  pub payload : Bytes
  pub qos : ℕ
  pub retain : Bool

-- `World` is everything behind the two components, other tasks included: each call may find it
-- changed, and a call returns what it left.
pub record Uplink : Type 1 where
  pub World : Type 0
  pub is_connected : World → Bool × World
  pub serialize : Event → Bytes → Bytes → World → Bytes × World
  pub publish : Message → World → Bool × World
  -- The messages that MQTT took, oldest first.
  pub handed : World → List Message
  -- The text of an event, for a device and a firmware version.
  pub render : Event → Bytes → Bytes → Bytes
  pub handed-is_connected : (w : World) → handed (is_connected w).1 ≡ handed w
  pub handed-serialize :
      (e : Event) (d v : Bytes) (w : World) → handed (serialize e d v w).1 ≡ handed w
  pub serialize_text :
      (e : Event) (d v : Bytes) (w : World)
      → ((serialize e d v w).0 ≡ []) ⊎ ((serialize e d v w).0 ≡ render e d v)
  pub publish_taken :
      (m : Message) (w : World)
      → (publish m w).0 ≡ true
      → handed (publish m w).1 ≡ handed w ++ m ∷ []
  pub publish_refused :
      (m : Message) (w : World) → (publish m w).0 ≡ false → handed (publish m w).1 ≡ handed w
