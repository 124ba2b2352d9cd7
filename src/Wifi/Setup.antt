-- ===== src/Wifi/Setup.antt =====
-- What the Wi-Fi initialization makes, on every outcome, and what the destructor gives back.
use iot_visual_management_sy.Prelude.{
  ℕ, suc, zero, ◌+◌, ◌-◌, ◌≡◌, ◌≤◌, ◌↔◌, ◌||◌, refl, take, length, Bool, true, false, Option, none,
  some, List, [], ◌∷◌, arith, if◌then◌else◌,
}
use iot_visual_management_sy.EspWifi.{WifiApi, NetView, Credentials}
use iot_visual_management_sy.Wifi.{
  WifiManager, State, ◌>>=◌, credentials, sta_config, init_stack, init_event_loop, init_interface,
  init_driver, init_wifi_handler, init_ip_handler, init_config, init_start, initialize, destroy,
}

abbrev held : {A : Type 0} → Option A → ℕ
held none = 0
held (some x) = 1

abbrev pub is_held : {A : Type 0} → Option A → Bool
is_held none = false
is_held (some x) = true

take_whole : {A : Type 0} (n : ℕ) (xs : List A) → (take n xs ≡ xs) ↔ (length xs ≤ n)
unfolding take
take_whole n [] = ((λ e. omega arith), (λ h. refl))
take_whole zero (x ∷ xs) = ((λ e. ground arith), (λ h. ground arith))
take_whole (suc n) (x ∷ xs) =
    let (to, from) = take_whole n xs in ((λ e. ground (arith, to)), (λ h. ground (arith, from)))

-- A stage's outcome: `Q` after a success, `F` after a failure.
abbrev Ends : {S : Type 0} → (S → Type 0) → (S → Type 0) → Bool × S → Type 0
Ends F Q r = elim r.0 [ true ↦ Q r.1 | false ↦ F r.1 ]

bind-Ends :
    {S : Type 0} (F P Q : S → Type 0) (r : Bool × S) (next : S → Bool × S)
    → Ends F P r
    → ((s : S) → P s → Ends F Q (next s))
    → Ends F Q (r >>= next)
bind-Ends F P Q (true, s) next h k = k s h
bind-Ends F P Q (false, s) next h k = h

else-Ends :
    {S : Type 0} (F Q : S → Type 0) (b : Bool) (x y : Bool × S)
    → b ≡ false
    → Ends F Q y
    → Ends F Q (if b then x else y)
else-Ends F Q true x y e h = ground arith
else-Ends F Q false x y e h = h

module _ {wifi : WifiApi} where
  -- As constructed: nothing is held, and the driver is not this manager's.
  pub record IsFresh (g : WifiManager wifi) : Type 0 where
    pub not_initialized : g.initialized ≡ false
    pub no_netif : g.netif ≡ none
    pub no_wifi_handler : g.wifi_event_handler ≡ none
    pub no_ip_handler : g.ip_event_handler ≡ none

module _ {wifi : WifiApi} (c : Credentials) (v : NetView) where
  -- What the stack has more than `v` is what the manager holds.
  record IsCounted (s : State wifi) : Type 0 where
    kept : credentials s.0 ≡ c
    netifs : (wifi.view s.1).netifs ≡ v.netifs + held s.0.netif
    handlers :
        (wifi.view s.1).handlers
        ≡ v.handlers + (held s.0.wifi_event_handler + held s.0.ip_event_handler)
    defaults : (wifi.view s.1).default_handlers ≡ (v.default_handlers || is_held s.0.netif)

  record IsBegun (s : State wifi) : Type 0 where
    counted : IsCounted s
    not_initialized : s.0.initialized ≡ false

  record NoIp (s : State wifi) : Type 0 where
    begun : IsBegun s
    no_ip_handler : s.0.ip_event_handler ≡ none

  record NoHandler (s : State wifi) : Type 0 where
    begun : NoIp s
    no_wifi_handler : s.0.wifi_event_handler ≡ none

  record Nothing (s : State wifi) : Type 0 where
    begun : NoHandler s
    no_netif : s.0.netif ≡ none

  record IsConfigured (s : State wifi) : Type 0 where
    begun : IsBegun s
    configured : (wifi.view s.1).configured ≡ some (sta_config wifi c)

  record IsDone (s : State wifi) : Type 0 where
    counted : IsCounted s
    initialized : s.0.initialized ≡ true
    configured : (wifi.view s.1).configured ≡ some (sta_config wifi c)

  init_stack-Ends : (s : State wifi) → Nothing s → Ends IsBegun Nothing (init_stack s)
  unfolding init_stack
  init_stack-Ends s h = ground (arith, wifi.view-netif_init s.1)

  init_event_loop-Ends : (s : State wifi) → Nothing s → Ends IsBegun Nothing (init_event_loop s)
  unfolding init_event_loop
  init_event_loop-Ends s h = ground (arith, wifi.view-event_loop_create_default s.1)

  init_interface-Ends : (s : State wifi) → Nothing s → Ends IsBegun NoHandler (init_interface s)
  unfolding init_interface
  init_interface-Ends s h = ground (arith, wifi.view-netif_create_default_wifi_sta s.1)

  init_driver-Ends : (s : State wifi) → NoHandler s → Ends IsBegun NoHandler (init_driver s)
  unfolding init_driver
  init_driver-Ends s h = ground (arith, wifi.view-wifi_init s.1)

  init_wifi_handler-Ends : (s : State wifi) → NoHandler s → Ends IsBegun NoIp (init_wifi_handler s)
  unfolding init_wifi_handler
  init_wifi_handler-Ends s h = ground (arith, wifi.view-register_wifi_event s.1)

  init_ip_handler-Ends : (s : State wifi) → NoIp s → Ends IsBegun IsBegun (init_ip_handler s)
  unfolding init_ip_handler
  init_ip_handler-Ends s h = ground (arith, wifi.view-register_ip_event s.1)

  init_config-Ends : (s : State wifi) → IsBegun s → Ends IsBegun IsConfigured (init_config s)
  unfolding init_config
  init_config-Ends s h = ground (
    arith,
    wifi.view-set_mode_sta s.1,
    wifi.view-set_config (sta_config wifi (credentials s.0)) (wifi.set_mode_sta s.1).1,
  )

  init_start-Ends : (s : State wifi) → IsConfigured s → Ends IsBegun IsDone (init_start s)
  unfolding init_start
  init_start-Ends s h = ground (arith, wifi.view-wifi_start s.1)

  -- Every stage in turn: a failure anywhere leaves the resources counted.
  initialize-Ends : (s : State wifi) → Nothing s → Ends IsBegun IsDone (initialize s)
  unfolding initialize
  initialize-Ends s h = else-Ends IsBegun IsDone _ _ _ h.begun.begun.begun.not_initialized (
      bind-Ends IsBegun Nothing IsDone _ _ (init_stack-Ends s h) λ s h.
        bind-Ends IsBegun Nothing IsDone _ _ (init_event_loop-Ends s h) λ s h.
          bind-Ends IsBegun NoHandler IsDone _ _ (init_interface-Ends s h) λ s h.
            bind-Ends IsBegun NoHandler IsDone _ _ (init_driver-Ends s h) λ s h.
              bind-Ends IsBegun NoIp IsDone _ _ (init_wifi_handler-Ends s h) λ s h.
                bind-Ends IsBegun IsBegun IsDone _ _ (init_ip_handler-Ends s h) λ s h.
                  bind-Ends IsBegun IsConfigured IsDone _ _ (init_config-Ends s h) init_start-Ends)

  -- The destructor gives back what the manager holds.
  record IsReturned (driver made : Bool) (s : State wifi) : Type 0 where
    netifs : (wifi.view s.1).netifs ≡ v.netifs
    handlers : (wifi.view s.1).handlers ≡ v.handlers
    driver_off : (wifi.view s.1).driver ≡ driver
    defaults : (wifi.view s.1).default_handlers ≡ (v.default_handlers || made)

  destroy-IsReturned :
      (s : State wifi)
      → IsCounted s
      → IsReturned
          (if s.0.initialized then false else (wifi.view s.1).driver)
          (is_held s.0.netif)
          (destroy s)
  unfolding destroy
  destroy-IsReturned s h = grind (
    arith, wifi.view-unregister_wifi_event, wifi.view-unregister_ip_event, wifi.view-wifi_stop,
    wifi.view-wifi_deinit, wifi.view-netif_destroy,
  )

module _ {wifi : WifiApi} (s : State wifi) (fresh : IsFresh s.0) where
  manager-Nothing : Nothing (credentials s.0) (wifi.view s.1) s
  manager-Nothing = ground (arith, fresh)

  Ends-IsCounted :
      (c : Credentials) (v : NetView) (r : Bool × State wifi)
      → Ends (IsBegun c v) (IsDone c v) r
      → IsCounted c v r.1 × (r.1.0.initialized ≡ r.0)
  Ends-IsCounted c v (true, s) h = (h.counted, h.initialized)
  Ends-IsCounted c v (false, s) h = (h.counted, h.not_initialized)

  success-configured :
      (c : Credentials) (v : NetView) (r : Bool × State wifi)
      → Ends (IsBegun c v) (IsDone c v) r
      → r.0 ≡ true
      → (wifi.view r.1.1).configured ≡ some (sta_config wifi c)
  success-configured c v (true, s) h e = h.configured
  success-configured c v (false, s) h e = ground arith

  -- The round trip from a fresh manager: `initialize`, whichever of its calls fails, and then the
  -- destructor leave as many interfaces and handlers of the manager registered as there were. The
  -- Wi-Fi driver is off if `initialize` succeeded; if it failed, the driver stays as `initialize`
  -- left it. ESP-IDF's own handlers, which come with the interface, stay registered if the
  -- interface was made.
  pub destroy-initialize :
      let r : Bool × State wifi = initialize s in
      let after : NetView = wifi.view (destroy r.1).1 in
      (after.netifs ≡ (wifi.view s.1).netifs)
      × (after.handlers ≡ (wifi.view s.1).handlers)
      × (after.driver ≡ (if r.0 then false else (wifi.view r.1.1).driver))
      × (after.default_handlers ≡ ((wifi.view s.1).default_handlers || is_held r.1.0.netif))
  destroy-initialize =
      let v : NetView = wifi.view s.1 in
      let ends = Ends-IsCounted _ _ _ (initialize-Ends (credentials s.0) v s manager-Nothing) in
      let returned = destroy-IsReturned (credentials s.0) v _ ends.0 in
      (returned.netifs, returned.handlers, rw (← ends.1) returned.driver_off, returned.defaults)

  -- After a successful `initialize` of a fresh manager the station is configured with the first
  -- bytes of the SSID in the field of the SSID, and those of the password in the field of the
  -- password, one byte less than each field has; each is whole exactly if it has at most that many
  -- bytes.
  pub configured_credentials :
      (initialize s).0 ≡ true
      → let ssid = take (wifi.ssid_size - 1) s.0.ssid in
        let password = take (wifi.password_size - 1) s.0.password in
        ((wifi.view (initialize s).1.1).configured
          ≡ some (record { ssid = ssid; password = password }))
        × ((ssid ≡ s.0.ssid) ↔ (length s.0.ssid ≤ wifi.ssid_size - 1))
        × ((password ≡ s.0.password) ↔ (length s.0.password ≤ wifi.password_size - 1))
  configured_credentials h = (
    success-configured _ _ _ (initialize-Ends (credentials s.0) (wifi.view s.1) s manager-Nothing)
        h,
    take_whole (wifi.ssid_size - 1) s.0.ssid,
    take_whole (wifi.password_size - 1) s.0.password,
  )
