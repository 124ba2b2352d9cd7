-- ===== src/Rtos/Host.antt =====
-- Concrete FreeRTOS objects that meet the laws of Rtos.antt: a bounded list, as in
-- firmware/tests/host/stubs/freertos/queue.h (whose `==` test agrees with `≤`, as the length never
-- passes the capacity), and a mutex that is a flag.
use iot_visual_management_sy.Prelude.{
  ℕ, ◌≤◌, ◌<◌, ◌≡◌, Bool, true, false, List, [], ◌∷◌, ◌++◌, Option, none, some, arith, length, leb,
  if◌then◌else◌,
}
use iot_visual_management_sy.Event.{Event}
use iot_visual_management_sy.Rtos.{QueueApi, MutexApi}

pub record HostQueue : Type 0 where
  pub capacity : ℕ
  pub items : List Event

abbrev pub x_queue_send : HostQueue → Event → Bool × HostQueue
x_queue_send q item =
    if leb q.capacity (length q.items)
    then (false, q)
    else (true, record q { items = q.items ++ item ∷ [] })

abbrev pub x_queue_receive : HostQueue → Option Event × HostQueue
x_queue_receive q = elim q.items [
  | [] ↦ (none, q)
  | item ∷ rest ↦ (some item, record q { items = rest })
]

pub send_room :
    (q : HostQueue) (e : Event)
    → length q.items < q.capacity
    → ((x_queue_send q e).0 ≡ true) × ((x_queue_send q e).1.items ≡ q.items ++ e ∷ [])
send_room q e h = ground arith

pub send_full :
    (q : HostQueue) (e : Event)
    → q.capacity ≤ length q.items
    → ((x_queue_send q e).0 ≡ false) × ((x_queue_send q e).1.items ≡ q.items)
send_full q e h = ground arith

pub receive_empty :
    (q : HostQueue)
    → q.items ≡ []
    → ((x_queue_receive q).0 ≡ none) × ((x_queue_receive q).1.items ≡ [])
receive_empty q h = ground arith

pub receive_front :
    (q : HostQueue) (e : Event) (rest : List Event)
    → q.items ≡ e ∷ rest
    → ((x_queue_receive q).0 ≡ some e) × ((x_queue_receive q).1.items ≡ rest)
receive_front q e rest h = ground arith

pub create_empty :
    (n : ℕ) (q : HostQueue)
    → some (record { capacity = n; items = [] }) ≡ some q
    → (q.items ≡ []) × (q.capacity ≡ n)
create_empty n q h = ground arith

pub capacity-send : (q : HostQueue) (e : Event) → (x_queue_send q e).1.capacity ≡ q.capacity
capacity-send q e = ground arith

pub capacity-receive : (q : HostQueue) → (x_queue_receive q).1.capacity ≡ q.capacity
capacity-receive q = ground arith

abbrev pub host_queue : QueueApi
host_queue = record {
  Handle = HostQueue;
  create = λ n. some (record { capacity = n; items = [] });
  send = x_queue_send;
  receive = x_queue_receive;
  items = λ q. q.items;
  capacity = λ q. q.capacity;
  create_empty = create_empty;
  send_room = send_room;
  send_full = send_full;
  receive_empty = receive_empty;
  receive_front = receive_front;
  capacity-send = capacity-send;
  capacity-receive = capacity-receive;
}

-- Taking a mutex that is taken would wait for ever, so it never reports success.
abbrev pub take_flag : Bool → Bool × Bool
take_flag true = (true, false)
take_flag false = (false, false)

pub create_free : (m : Bool) → some true ≡ some m → m ≡ true
create_free m h = ground arith

pub take_free : (m : Bool) → m ≡ true → ((take_flag m).0 ≡ true) × ((take_flag m).1 ≡ false)
take_free m h = ground arith

pub give-take : (m : Bool) → m ≡ true → true ≡ m
give-take m h = ground arith

abbrev pub host_mutex : MutexApi
host_mutex = record {
  Handle = Bool;
  create = some true;
  take = take_flag;
  give = λ _. true;
  is_free = λ m. m;
  create_free = create_free;
  take_free = take_free;
  give-take = give-take;
}
