-- ===== src/Main/Checks.antt =====
-- The checks of the start-up, one by one, and what it makes if all of them pass.
use iot_visual_management_sy.Prelude.{
  ◌≡◌, refl, sym, ◌∙◌, Bool, true, false, List, [], ◌∷◌, ◌++◌, arith, if◌then◌else◌,
}
use iot_visual_management_sy.Config.{
  device_id, wifi_ssid, wifi_password, mqtt_broker_uri, event_queue_size, offline_event_queue_size,
}
use iot_visual_management_sy.EventQueue
use iot_visual_management_sy.Store
use iot_visual_management_sy.StateManager.{initial}
use iot_visual_management_sy.Output
use iot_visual_management_sy.Input
use iot_visual_management_sy.Mqtt
use iot_visual_management_sy.Wifi
use iot_visual_management_sy.Application
use iot_visual_management_sy.Main.{
  NvsApi, Platform, Firmware, Board, Boot, ok, err, BootError, nvs_erase_failed, nvs_failed,
  queue_failed, output_failed, inputs_failed, mqtt_failed, application_failed, check, create_inputs,
  create_output, needs_erase, is_ok, init_nvs, boot, starting_inputs, ◌>>◌,
}

module _ {p : Platform} (b : Board p) where
  abbrev pub queue_made : Bool
  queue_made =
      EventQueue.is_valid {api = p.queue} (EventQueue.create {api = p.queue} event_queue_size)

  abbrev pub output_made : Bool
  output_made = (Output.initialize b.led_configured create_output).0

  abbrev pub inputs_made : Bool
  inputs_made = (Input.initialize {adc = p.adc} (create_inputs {adc = p.adc}) b.setup b.adc).0

  abbrev pub mqtt_made : Bool
  mqtt_made =
      (Mqtt.initialize {mqtt = p.mqtt}
        (Mqtt.create {mqtt = p.mqtt} (mqtt_broker_uri b.config) (device_id b.config)) b.mqtt).0

  -- What the start-up makes.
  abbrev pub made_firmware : Firmware p
  made_firmware =
      let inputs = (Input.initialize {adc = p.adc} (create_inputs {adc = p.adc}) b.setup b.adc).1 in
      let mqtt =
        (Mqtt.initialize {mqtt = p.mqtt}
          (Mqtt.create {mqtt = p.mqtt} (mqtt_broker_uri b.config) (device_id b.config)) b.mqtt).1 in
      record {
        queue = EventQueue.create {api = p.queue} event_queue_size;
        task = record {
          application = record {
            state_manager = initial;
            output_manager = (Output.initialize b.led_configured create_output).1;
            offline_store = Store.create {api = p.mutex} offline_event_queue_size;
            next_sequence_id = 1;
            world = record { manager = mqtt.0; net = mqtt.1; heap = b.heap };
          };
          last_heartbeat_ms = 0;
        };
        inputs = inputs.0;
        adc = inputs.1;
        wifi = Wifi.create {wifi = p.wifi} (wifi_ssid b.config) (wifi_password b.config);
        wifi_net = b.wifi;
        progress = starting_inputs;
      }

-- The failures of the storage: it needs an erase that fails, or it is not usable at the end.
abbrev pub nvs_failures : (nvs : NvsApi) → nvs.Flash → List BootError
nvs_failures nvs flash =
    let first = nvs.init flash in
    let erased = nvs.erase first.1 in
    if needs_erase first.0
    then (if erased.0
        then (if is_ok (nvs.init erased.1).0 then [] else nvs_failed ∷ [])
        else nvs_erase_failed ∷ [])
    else if is_ok first.0
    then []
    else nvs_failed ∷ []

abbrev pub failure : Bool → BootError → List BootError
failure true e = []
failure false e = e ∷ []

-- Those after the output's.
abbrev pub later_failures : {p : Platform} → Board p → List BootError
later_failures b =
    failure (inputs_made b) inputs_failed
    ++ (failure (mqtt_made b) mqtt_failed ++ failure b.application_task application_failed)

-- The failures that the start-up meets, in its order, if each call is made whatever failed before.
abbrev pub failures : {p : Platform} → Board p → List BootError
failures {p} b =
    nvs_failures p.nvs b.flash
    ++ (failure (queue_made b) queue_failed
        ++ (failure (output_made b) output_failed ++ later_failures b))

-- What a start-up with these failures ends with: the first of them.
abbrev pub first_failure : {A : Type 0} → List BootError → A → Boot A
first_failure [] a = ok a
first_failure (e ∷ es) a = err e

check_lem :
    {A : Type 0} (c : Bool) (e : BootError) (es : List BootError) (r : Boot A) (a : A)
    → r ≡ first_failure es a
    → (check c e >> r) ≡ first_failure (failure c e ++ es) a
check_lem true e es r a h = h
check_lem false e es r a h = refl

last_check :
    {A : Type 0} (c : Bool) (e : BootError) (a : A)
    → (check c e >> ok a) ≡ first_failure (failure c e) a
last_check true e a = refl
last_check false e a = refl

unit_lem :
    {A : Type 0} (m : Boot (Unit {0})) (fs es : List BootError) (r : Boot A) (a : A)
    → m ≡ first_failure fs tt
    → r ≡ first_failure es a
    → (m >> r) ≡ first_failure (fs ++ es) a
unit_lem m [] es r a at h = rw at h
unit_lem m (e ∷ fs) es r a at h = rw at refl

init_nvs_lem :
    (nvs : NvsApi) (flash : nvs.Flash)
    → init_nvs nvs flash ≡ first_failure (nvs_failures nvs flash) tt
unfolding init_nvs
init_nvs_lem nvs flash = ground arith

-- The start-up in terms of its parts.
pub boot-made : {p : Platform} (b : Board p) → boot b ≡ first_failure (failures b) (made_firmware b)
unfolding boot Application.start
boot-made {p} b =
    let f = made_firmware b in
    let task = last_check b.application_task application_failed f in
    let mqtt = check_lem (mqtt_made b) mqtt_failed _ _ f task in
    let inputs = check_lem (inputs_made b) inputs_failed _ _ f mqtt in
    let output = check_lem (output_made b) output_failed _ _ f inputs in
    let queue = check_lem (queue_made b) queue_failed _ _ f output in
    unit_lem (init_nvs p.nvs b.flash) _ _ _ f (init_nvs_lem p.nvs b.flash) queue

passed :
    {A : Type 0} (es : List BootError) (a f : A) → first_failure es a ≡ ok f → (es ≡ []) × (a ≡ f)
passed [] a f h = ground arith
passed (e ∷ es) a f h = absurd (ground arith)

-- Two checks in the middle, if nothing failed.
both_checked :
    (fs : List BootError) (c d : Bool) (x y : BootError) (es : List BootError)
    → (fs ++ (failure c x ++ (failure d y ++ es))) ≡ []
    → (c ≡ true) × (d ≡ true)
both_checked [] true true x y es h = (refl, refl)
both_checked [] true false x y es h = absurd (ground arith)
both_checked [] false d x y es h = absurd (ground arith)
both_checked (f ∷ fs) c d x y es h = absurd (ground arith)

-- A start-up that ends well had its queue made and its output initialized.
pub boot-ok :
    {p : Platform} (b : Board p) (f : Firmware p)
    → boot b ≡ ok f
    → (queue_made b ≡ true) × (output_made b ≡ true) × (made_firmware b ≡ f)
boot-ok {p} b f h =
    let (none_failed, same) = passed (failures b) (made_firmware b) f (sym (boot-made b) ∙ h) in
    let (queue, output) =
      both_checked (nvs_failures p.nvs b.flash) (queue_made b) (output_made b) queue_failed
        output_failed (later_failures b) none_failed in
    (queue, output, same)
