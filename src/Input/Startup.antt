-- ===== src/Input/Startup.antt =====
-- What the initialization of the inputs leaves when it fails.
use iot_visual_management_sy.Prelude.{
  ◌⊎◌, ◌∙◌, ◌≡◌, ◌+◌, refl, Bool, true, false, ◌&&◌, none, arith, Bool-cases, inl, inr,
}
use iot_visual_management_sy.Drivers.Digital
use iot_visual_management_sy.Drivers.Encoder
use iot_visual_management_sy.Drivers.Analog.{AdcApi}
use iot_visual_management_sy.Drivers.Analog
use iot_visual_management_sy.Drivers.Analog.Setup.{ready, failed, initialize-Initialized}
use iot_visual_management_sy.Input.{InputManager, Setup, initialize}

-- The pins of the three digital inputs were configured.
abbrev pub all_configured : Setup → Bool
all_configured s = s.button_configured && (s.toggle_configured && s.encoder_configured)

module _ {adc : AdcApi} where
  initialize-pins :
      (i : InputManager adc) (s : Setup) (w : adc.Adc)
      → all_configured s ≡ true
      → ((initialize i s w).0 ≡ (Analog.initialize i.analog_input w).0)
        × ((initialize i s w).1.1 ≡ (Analog.initialize i.analog_input w).1.1)
        × ((initialize i s w).1.0.analog_input ≡ (Analog.initialize i.analog_input w).1.0)
  unfolding initialize Digital.initialize Encoder.initialize
  initialize-pins i s w h = ground arith

  initialize-failed_pin :
      (i : InputManager adc) (s : Setup) (w : adc.Adc)
      → all_configured s ≡ false
      → ((initialize i s w).0 ≡ false)
        × ((initialize i s w).1.1 ≡ w)
        × ((initialize i s w).1.0.analog_input ≡ i.analog_input)
  unfolding initialize Digital.initialize Encoder.initialize
  initialize-failed_pin i s w h = ground arith

  -- `initialize` on a manager whose analog input has no ADC unit: it succeeds only if every pin was
  -- configured, and then one ADC unit more exists; if it fails, whichever input failed, no ADC unit
  -- is left and the analog input is as it was.
  pub initialize_units :
      (i : InputManager adc) (s : Setup) (w : adc.Adc)
      → i.analog_input.adc_handle ≡ none
      → let r = initialize i s w in
        ((r.0 ≡ true) × (all_configured s ≡ true) × (adc.units r.1.1 ≡ adc.units w + 1))
        ⊎ ((r.0 ≡ false) × (r.1.0.analog_input ≡ i.analog_input) × (adc.units r.1.1 ≡ adc.units w))
  initialize_units i s w null = elim (Bool-cases (all_configured s)) [
    | inr bad ↦ let f = initialize-failed_pin i s w bad in inr (f.0, f.2, rw f.1 refl)
    | inl good ↦
        let p = initialize-pins i s w good in
        elim (initialize-Initialized i.analog_input w null) [
          | ready h raw unit channel sample done made one ↦
              inl (p.0 ∙ done, good, ground (arith, one))
          | failed fault bad same none_left ↦ inr (p.0 ∙ bad, p.2 ∙ same, ground (arith, none_left))
        ]
  ]
