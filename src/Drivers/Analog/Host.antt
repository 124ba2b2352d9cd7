-- ===== src/Drivers/Analog/Host.antt =====
-- A concrete ADC that meets the laws of `AdcApi`: it always reads the same value.
use iot_visual_management_sy.Prelude.{ℕ, ◌+◌, ◌-◌, refl, ℤ, true, some}
use iot_visual_management_sy.Drivers.Analog.{AdcApi}

-- The peripheral's state: what it reads, and its number of units.
abbrev pub host_adc : AdcApi
host_adc = record {
  Adc = ℤ × ℕ;
  Handle = Unit {0};
  new_unit = λ n w. (some tt, (w.0, w.1 + 1));
  config_channel = λ h c w. (true, w);
  read = λ h c w. (some w.0, w);
  del_unit = λ h w. (w.0, w.1 - 1);
  units = λ w. w.1;
  units-new_unit = λ n w. refl;
  units-config_channel = λ h c w. refl;
  units-read = λ h c w. refl;
  units-del_unit = λ h w. refl;
}
