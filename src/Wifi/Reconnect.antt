-- ===== src/Wifi/Reconnect.antt =====
-- The Wi-Fi connection over time, as a small machine that the manager implements.
use iot_visual_management_sy.Prelude.{
  ℕ, suc, zero, ◌∙◌, sym, ltb, ◌+◌, ◌≡◌, refl, Bool, true, false, List, [], ◌∷◌, ◌++◌, take, length,
  arith, All, append_assoc, if◌then◌else◌,
}
use iot_visual_management_sy.Event.{Event, wifi_connected, wifi_disconnected}
use iot_visual_management_sy.Rtos.{QueueApi}
use iot_visual_management_sy.EventQueue.{EventQueue}
use iot_visual_management_sy.EventQueue
use iot_visual_management_sy.EventQueue.Fifo.{contents, capacity, send_lem}
use iot_visual_management_sy.EspWifi.{WifiApi}
use iot_visual_management_sy.Wifi.{
  WifiEvent, wifi_event_sta_start, wifi_event_sta_disconnected, ip_event_sta_got_ip,
  wifi_event_other, ip_event_other, State, Station, connection_event, publish_connection_event,
  handle_wifi_event, connect, disconnect,
}

-- What happens to the manager: an event with its time in microseconds, or a call.
pub data Action : Type 0 where
  happens : WifiEvent → ℕ → Action
  connects disconnects : Action

-- The connection as a user sees it: whether it is up, whether it is wanted, how often the driver was
-- asked for it, and the notices given, oldest first.
pub record Link : Type 0 where
  pub up : Bool
  pub wanted : Bool
  pub asked : ℕ
  pub notices : List Event

abbrev lost : ℕ → Event
lost time_us = connection_event wifi_disconnected false time_us

abbrev gained : ℕ → Event
gained time_us = connection_event wifi_connected true time_us

abbrev pub advance : Link → Action → Link
advance l (happens wifi_event_sta_start t) = record l { asked = l.asked + 1 }
advance l (happens wifi_event_sta_disconnected t) = record l {
  up = false;
  asked = if l.wanted then l.asked + 1 else l.asked;
  notices = l.notices ++ lost t ∷ [];
}
advance l (happens ip_event_sta_got_ip t) = record l {
  up = true;
  notices = l.notices ++ gained t ∷ [];
}
advance l (happens wifi_event_other t) = l
advance l (happens ip_event_other t) = l
advance l connects = record l { wanted = true; asked = l.asked + 1 }
advance l disconnects = record l { wanted = false }

pub advance_all : Link → List Action → Link
advance_all l [] = l
advance_all l (a ∷ rest) = advance_all (advance l a) rest

-- After an explicit disconnect: neither a start of the station nor a call asks for the connection.
abbrev pub asks : Action → Bool
asks (happens wifi_event_sta_start t) = true
asks (happens e t) = false
asks connects = true
asks disconnects = false

asked_same :
    (l : Link) (actions : List Action)
    → l.wanted ≡ false
    → All (λ a. asks a ≡ false) actions
    → (advance_all l actions).asked ≡ l.asked
unfolding advance_all
asked_same l [] h quiet = refl
asked_same l (happens wifi_event_sta_start t ∷ rest) h (q, quiet) = ground arith
asked_same l (happens wifi_event_sta_disconnected t ∷ rest) h (q, quiet) =
    asked_same (advance l (happens wifi_event_sta_disconnected t)) rest h quiet ∙ rw h refl
asked_same l (happens ip_event_sta_got_ip t ∷ rest) h (q, quiet) =
    asked_same (advance l (happens ip_event_sta_got_ip t)) rest h quiet
asked_same l (happens wifi_event_other t ∷ rest) h (q, quiet) = asked_same l rest h quiet
asked_same l (happens ip_event_other t ∷ rest) h (q, quiet) = asked_same l rest h quiet
asked_same l (connects ∷ rest) h (q, quiet) = ground arith
asked_same l (disconnects ∷ rest) h (q, quiet) = asked_same (advance l disconnects) rest refl quiet

-- A full prefix stays; one with room takes the new entry.
take_grow :
    {A : Type 0} (n : ℕ) (xs : List A) (e : A)
    → take n (xs ++ e ∷ []) ≡ take n xs ++ (if ltb (length (take n xs)) n then e ∷ [] else [])
unfolding take
take_grow zero [] e = refl
take_grow (suc n) [] e = ground arith
take_grow zero (x ∷ xs) e = refl
take_grow (suc n) (x ∷ xs) e = ground (arith, take_grow n xs e)

module _ {api : QueueApi} where
  send-noticed :
      (before notices : List Event) (q : EventQueue api) (e : Event)
      → contents q ≡ take (capacity q) (before ++ notices)
      → contents (EventQueue.send q e).1
        ≡ take (capacity (EventQueue.send q e).1) (before ++ (notices ++ e ∷ []))
  send-noticed before notices q e h =
      let (sent, at, same) = send_lem q e in
      at
      ∙ rw (sent, same, ← append_assoc before notices (e ∷ []), h)
          (sym (take_grow (capacity q) (before ++ notices) e))

module _ {wifi : WifiApi} {api : QueueApi} where
  abbrev with_state : Station wifi api → State wifi → Station wifi api
  with_state s (g, w) = record s { manager = g; net = w }

  pub step : Station wifi api → Action → Station wifi api
  step s (happens e time_us) = handle_wifi_event s e time_us
  step s connects = with_state s (connect (s.manager, s.net)).1
  step s disconnects = with_state s (disconnect (s.manager, s.net))

  pub run : Station wifi api → List Action → Station wifi api
  run s [] = s
  run s (a ∷ rest) = run (step s a) rest

  -- The manager agrees with the link.
  pub record Follows (s : Station wifi api) (l : Link) : Type 0 where
    pub ready : s.manager.initialized ≡ true
    pub up : s.manager.connected ≡ l.up
    pub wanted : s.manager.reconnect_enabled ≡ l.wanted
    pub asked : (wifi.view s.net).requests ≡ l.asked

  -- Of the notices, the queue has what it had room for, in order, behind what it held.
  pub record Shows (before : List Event) (s : Station wifi api) (l : Link) : Type 0 where
    pub follows : Follows s l
    pub noticed : contents s.queue ≡ take (capacity s.queue) (before ++ l.notices)

  step-Follows :
      (s : Station wifi api) (l : Link) (a : Action)
      → Follows s l
      → Follows (step s a) (advance l a)
  unfolding step handle_wifi_event publish_connection_event connect disconnect
  step-Follows s l (happens wifi_event_sta_start t) h = ground (arith, wifi.view-wifi_connect s.net)
  step-Follows s l (happens wifi_event_sta_disconnected t) h =
      ground (arith, wifi.view-wifi_connect s.net)
  step-Follows s l (happens ip_event_sta_got_ip t) h = ground arith
  step-Follows s l (happens wifi_event_other t) h = h
  step-Follows s l (happens ip_event_other t) h = h
  step-Follows s l connects h = ground (arith, wifi.view-wifi_connect s.net)
  step-Follows s l disconnects h = ground (arith, wifi.view-wifi_disconnect s.net)

  step-noticed :
      (before : List Event) (s : Station wifi api) (l : Link) (a : Action)
      → contents s.queue ≡ take (capacity s.queue) (before ++ l.notices)
      → contents (step s a).queue
        ≡ take (capacity (step s a).queue) (before ++ (advance l a).notices)
  unfolding step handle_wifi_event publish_connection_event connect disconnect
  step-noticed before s l (happens wifi_event_sta_start t) h = h
  step-noticed before s l (happens wifi_event_sta_disconnected t) h =
      send-noticed before l.notices s.queue (lost t) h
  step-noticed before s l (happens ip_event_sta_got_ip t) h =
      send-noticed before l.notices s.queue (gained t) h
  step-noticed before s l (happens wifi_event_other t) h = h
  step-noticed before s l (happens ip_event_other t) h = h
  step-noticed before s l connects h = h
  step-noticed before s l disconnects h = h

  -- The manager implements a link with four components: over any events and any calls of `connect`
  -- and `disconnect`, an initialized manager's two flags and the driver's number of connection
  -- requests are those of the link, and the queue holds what it held and the link's notices behind
  -- it, in order, cut to the queue's capacity.
  pub run-Shows :
      (before : List Event) (s : Station wifi api) (l : Link) (actions : List Action)
      → Shows before s l
      → Shows before (run s actions) (advance_all l actions)
  unfolding run advance_all
  run-Shows before s l [] h = h
  run-Shows before s l (a ∷ rest) h = run-Shows before (step s a) (advance l a) rest (record {
    follows = step-Follows s l a h.follows;
    noticed = step-noticed before s l a h.noticed;
  })

  run-Follows :
      (s : Station wifi api) (l : Link) (actions : List Action)
      → Follows s l
      → Follows (run s actions) (advance_all l actions)
  unfolding run advance_all
  run-Follows s l [] h = h
  run-Follows s l (a ∷ rest) h = run-Follows (step s a) (advance l a) rest (step-Follows s l a h)

  abbrev link_of : Station wifi api → Link
  link_of s = record {
    up = s.manager.connected;
    wanted = s.manager.reconnect_enabled;
    asked = (wifi.view s.net).requests;
    notices = [];
  }

  -- An explicit `disconnect` is respected: until a call of `connect` or a start of the station,
  -- the initialized manager asks the driver for no connection, however often the connection is
  -- lost.
  pub run-disconnect_silent :
      (s : Station wifi api) (actions : List Action)
      → s.manager.initialized ≡ true
      → All (λ a. asks a ≡ false) actions
      → (wifi.view (run s (disconnects ∷ actions)).net).requests ≡ (wifi.view s.net).requests
  unfolding advance_all
  run-disconnect_silent s actions ready quiet =
      (run-Follows s (link_of s) (disconnects ∷ actions) (ground arith)).asked
      ∙ asked_same (advance (link_of s) disconnects) actions refl quiet
