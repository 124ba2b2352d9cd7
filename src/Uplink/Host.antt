-- ===== src/Uplink/Host.antt =====
-- A concrete way to the broker that meets the laws of Uplink.antt: a link that is up or down, with
-- room for a number of messages.
use iot_visual_management_sy.Prelude.{
  ℕ, zero, suc, ◌≡◌, refl, inr, Bool, true, false, List, [], ◌∷◌, ◌++◌, Bytes, arith,
}
use iot_visual_management_sy.Event.{Event}
use iot_visual_management_sy.Uplink.{Message, Uplink}

pub record Link : Type 0 where
  pub up : Bool
  pub room : ℕ
  pub taken : List Message

abbrev pub host_publish : Message → Link → Bool × Link
host_publish m w = elim w.room [
  | zero ↦ (false, w)
  | suc n ↦ (true, record w { room = n; taken = w.taken ++ m ∷ [] })
]

abbrev pub host_render : Event → Bytes → Bytes → Bytes
host_render e d v = e.sequence_id ∷ d

pub host_taken :
    (m : Message) (w : Link)
    → (host_publish m w).0 ≡ true
    → (host_publish m w).1.taken ≡ w.taken ++ m ∷ []
host_taken m w h = ground arith

pub host_refused :
    (m : Message) (w : Link) → (host_publish m w).0 ≡ false → (host_publish m w).1.taken ≡ w.taken
host_refused m w h = ground arith

abbrev pub host_uplink : Uplink
host_uplink = record {
  World = Link;
  is_connected = λ w. (w.up, w);
  serialize = λ e d v w. (host_render e d v, w);
  publish = host_publish;
  handed = λ w. w.taken;
  render = host_render;
  handed-is_connected = λ w. refl;
  handed-serialize = λ e d v w. refl;
  serialize_text = λ e d v w. inr refl;
  publish_taken = host_taken;
  publish_refused = host_refused;
}
