-- ===== src/Drivers/Analog/Setup.antt =====
-- The scale of the analog input, and what `initialize` leaves behind.
use iot_visual_management_sy.Prelude.{
  ◌+◌, sym, ap, refl, ◌≡◌, ◌↔◌, ℤ, pos, ◌≤ℤ◌, Bool, true, false, Option, none, some, arith,
  Option-cases, Bool-cases, inl, inr,
}
use iot_visual_management_sy.Drivers.Analog.{
  AdcApi, AnalogInput, raw_to_percent, release, read_raw, configure, initialize,
}

-- The percentages of two readings, the first at most the second, are in that order and from 0 to
-- 100, whatever the readings; the first is 100 exactly from the greatest 12-bit reading on.
pub raw_to_percent_scale :
    (a b : ℤ)
    → a ≤ℤ b
    → (pos 0 ≤ℤ raw_to_percent a)
      × (raw_to_percent b ≤ℤ pos 100)
      × (raw_to_percent a ≤ℤ raw_to_percent b)
      × ((raw_to_percent a ≡ pos 100) ↔ (pos 4095 ≤ℤ a))
unfolding raw_to_percent
raw_to_percent_scale a b h = ground arith

module _ {adc : AdcApi} where
  -- The calls of `initialize` up to the reading: the unit, its channel, and the reading.
  abbrev unit_made : AnalogInput adc → adc.Adc → Option adc.Handle × adc.Adc
  unit_made a w = adc.new_unit a.unit w

  abbrev channel_set : AnalogInput adc → adc.Adc → adc.Handle → Bool × adc.Adc
  channel_set a w h = adc.config_channel h a.channel (unit_made a w).1

  abbrev reading : AnalogInput adc → adc.Adc → adc.Handle → Option ℤ × adc.Adc
  reading a w h = adc.read h a.channel (channel_set a w h).1

  -- The call of the ADC driver that fails, if one does.
  pub data Fault (a : AnalogInput adc) (w : adc.Adc) : Type 0 where
    no_unit : (unit_made a w).0 ≡ none → Fault a w
    no_channel :
        (h : adc.Handle) → (unit_made a w).0 ≡ some h → (channel_set a w h).0 ≡ false → Fault a w
    no_reading :
        (h : adc.Handle)
        → (unit_made a w).0 ≡ some h
        → (channel_set a w h).0 ≡ true
        → (reading a w h).0 ≡ none
        → Fault a w

  -- What an `initialize` from the state `a` and the peripheral `w` leaves.
  pub data Initialized (a : AnalogInput adc) (w : adc.Adc) (r : Bool × (AnalogInput adc × adc.Adc))
      : Type 0 where
    ready :
        (h : adc.Handle) (raw : ℤ)
        → (unit_made a w).0 ≡ some h
        → (channel_set a w h).0 ≡ true
        → (reading a w h).0 ≡ some raw
        → r.0 ≡ true
        → r.1.0 ≡ record a {
          adc_handle = some h;
          stable_percent = raw_to_percent raw;
          initialized = true;
        }
        → adc.units r.1.1 ≡ adc.units w + 1
        → Initialized a w r
    failed : Fault a w → r.0 ≡ false → r.1.0 ≡ a → adc.units r.1.1 ≡ adc.units w → Initialized a w r

  -- `initialize` on an input without a unit succeeds if the unit is made, its channel configured and
  -- a reading taken: then there is one unit more, the baseline is the percentage of that reading, and
  -- the initial report is still pending as before. If one of the three calls fails, so does
  -- `initialize`, with the input as it was and no unit left behind.
  pub initialize-Initialized :
      (a : AnalogInput adc) (w : adc.Adc) → a.adc_handle ≡ none → Initialized a w (initialize a w)
  unfolding initialize configure release read_raw
  initialize-Initialized a w null =
      let r = unit_made a w in
      let count = adc.units-new_unit a.unit w in
      let cleared = sym (ap (λ x. record a { adc_handle = x }) null) in
      elim (Option-cases r.0) [
        | inl refused ↦
            rw (initialize, refused) (failed (no_unit refused) refl refl (ground (arith, count)))
        | inr (h, made) ↦
            let c = channel_set a w h in
            let config = adc.units-config_channel h a.channel r.1 in
            let sampled = adc.units-read h a.channel c.1 in
            let deleted = adc.units-del_unit h in
            elim (Bool-cases c.0) [
              | inr bad ↦
                  rw (initialize, made, configure, bad)
                    (failed (no_channel h made bad) refl cleared
                      (ground (arith, count, config, deleted c.1)))
              | inl good ↦ elim (Option-cases (reading a w h).0) [
                | inl unread ↦
                    rw (initialize, made, configure, good, unread)
                      (failed (no_reading h made good unread) refl cleared
                        (ground (arith, count, config, sampled, deleted (reading a w h).1)))
                | inr (raw, sample) ↦
                    rw (initialize, made, configure, good, sample)
                      (ready h raw made good sample refl refl
                        (ground (arith, count, config, sampled)))
              ]
            ]
      ]
