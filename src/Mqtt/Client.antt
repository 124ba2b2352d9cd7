-- ===== src/Mqtt/Client.antt =====
-- The life of the MQTT client: no client is leaked, and the flag follows the broker's notices.
use iot_visual_management_sy.Prelude.{
  ℕ, ◌+◌, ◌≡◌, refl, Bool, true, false, List, [], ◌∷◌, none, some, arith, Option-cases, Bool-cases,
  inl, inr,
}
use iot_visual_management_sy.Rtos.{QueueApi}
use iot_visual_management_sy.Cjson.{CjsonApi}
use iot_visual_management_sy.Mqtt.{
  MqttApi, MqttManager, MqttEvent, mqtt_event_connected, mqtt_event_disconnected, mqtt_event_error,
  mqtt_event_other, mqtt_event_data, Station, initialize, handle_event,
}

module _ {mqtt : MqttApi} where
  -- The client exists exactly once the manager is initialized.
  abbrev pub Consistent : MqttManager mqtt → Type 0
  Consistent g = elim g.client [ none ↦ g.initialized ≡ false | some c ↦ g.initialized ≡ true ]

  abbrev pub clients_of : MqttManager mqtt → ℕ
  clients_of g = elim g.client [ none ↦ 0 | some c ↦ 1 ]

  -- `initialize` on a consistent manager leaves a consistent one and reports whether it is
  -- initialized, and the number of clients of the library grows by exactly those that the manager
  -- gained: none is leaked when the registration of the handler fails, and none made twice.
  pub initialize_clients :
      (g : MqttManager mqtt) (w : mqtt.Net)
      → Consistent g
      → let r = initialize g w in
        Consistent r.1.0
        × (r.0 ≡ r.1.0.initialized)
        × (mqtt.clients r.1.1 + clients_of g ≡ mqtt.clients w + clients_of r.1.0)
  unfolding initialize
  initialize_clients g w ok = elim (Bool-cases g.initialized) [
    | inl done ↦ ground arith
    | inr new ↦
        let r = mqtt.init g.broker_uri g.device_id w in
        let made = mqtt.clients-init g.broker_uri g.device_id w in
        elim (Option-cases g.client) [
          | inr (c, early) ↦ absurd (ground arith)
          | inl null ↦ elim (Option-cases r.0) [
            | inl failed ↦ ground (arith, made)
            | inr (c, created) ↦ ground (
              arith,
              made,
              mqtt.clients-register_event c r.1,
              mqtt.clients-destroy c (mqtt.register_event c r.1).1,
            )
          ]
        ]
  ]

-- What the notices say of the connection: the last one counts.
pub last_notice : Bool → List (MqttEvent × ℕ) → Bool
last_notice before [] = before
last_notice before ((mqtt_event_connected, t) ∷ rest) = last_notice true rest
last_notice before ((mqtt_event_disconnected, t) ∷ rest) = last_notice false rest
last_notice before ((mqtt_event_data a, t) ∷ rest) = last_notice before rest
last_notice before ((mqtt_event_error, t) ∷ rest) = last_notice before rest
last_notice before ((mqtt_event_other, t) ∷ rest) = last_notice before rest

module _ {mqtt : MqttApi} {api : QueueApi} (json : CjsonApi) where
  -- A run of the handler, with the timer at each event.
  pub run : Station mqtt api json → List (MqttEvent × ℕ) → Station mqtt api json
  run s [] = s
  run s ((event, time_us) ∷ rest) = run (handle_event json s event time_us) rest

  -- After any events, the manager counts as connected exactly if the last notice of the broker said
  -- so, whatever commands and errors came in between.
  pub run_connected :
      (s : Station mqtt api json) (events : List (MqttEvent × ℕ))
      → (run s events).manager.connected ≡ last_notice s.manager.connected events
  unfolding run last_notice handle_event
  run_connected s [] = refl
  run_connected s ((mqtt_event_connected, t) ∷ rest) =
      run_connected (handle_event json s mqtt_event_connected t) rest
  run_connected s ((mqtt_event_disconnected, t) ∷ rest) =
      run_connected (handle_event json s mqtt_event_disconnected t) rest
  run_connected s ((mqtt_event_data a, t) ∷ rest) =
      run_connected (handle_event json s (mqtt_event_data a) t) rest
  run_connected s ((mqtt_event_error, t) ∷ rest) = run_connected s rest
  run_connected s ((mqtt_event_other, t) ∷ rest) = run_connected s rest
