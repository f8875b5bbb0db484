-- ===== src/Meter/Rate.antt =====
-- lib/nikss_meter.c and lib/nikss_meter.h: the rates of a meter, and the periods that the data plane
-- counts in.
use nikss.Base.{ℕ, ◌+◌, ◌-◌, ◌*◌, ◌/◌, ◌%◌, ◌^◌, Option, none, some, ◌==◌, leb, if◌then◌else◌}

-- NS_IN_S
abbrev pub ns_in_s : ℕ
ns_in_s = 1000000000

abbrev pub meter_period_min : ℕ
meter_period_min = 100

-- `nikss_meter_entry_t`, less its index
pub record MeterEntry : Type 0 where
  pub pir : ℕ
  pub pbs : ℕ
  pub cir : ℕ
  pub cbs : ℕ

-- `nikss_meter_data_t`, less the two times, which the data plane writes
pub record MeterData : Type 0 where
  pub pir_period : ℕ
  pub pir_unit_per_period : ℕ
  pub cir_period : ℕ
  pub cir_unit_per_period : ℕ
  pub pbs : ℕ
  pub cbs : ℕ
  pub pbs_left : ℕ
  pub cbs_left : ℕ

-- The period and the units per period. `none` is the conversion of an infinity to an integer, which
-- is undefined in C: the code divides by a period of 0. The quotient of a double is at least 1/99
-- away from an integer that it is not equal to, so that its ceiling is that of the exact quotient.
unfoldable pub convert_rate : ℕ → Option (ℕ × ℕ)
convert_rate rate =
    let period = ns_in_s / rate in
    let unit_per_period = (meter_period_min + (period - 1)) / period in
    if rate == 0
    then some (0, 0)
    else if leb meter_period_min period
    then some (period, 1)
    else if period == 0
    then none
    else some (ns_in_s * unit_per_period / rate, unit_per_period)

-- The rate of a period, which wraps around at 64 bits.
abbrev pub rate_of : ℕ → ℕ → ℕ
rate_of period unit_per_period =
    if period == 0 then 0 else ns_in_s / period * unit_per_period % 2 ^ 64

unfoldable pub convert_meter_data_to_entry : MeterData → MeterEntry
convert_meter_data_to_entry md = record {
  pir = rate_of md.pir_period md.pir_unit_per_period;
  pbs = md.pbs;
  cir = rate_of md.cir_period md.cir_unit_per_period;
  cbs = md.cbs;
}

abbrev pub data_of : MeterEntry → Option (ℕ × ℕ) → Option (ℕ × ℕ) → Option MeterData
data_of entry (some (pp, pu)) (some (cp, cu)) = some (record {
  pir_period = pp;
  pir_unit_per_period = pu;
  cir_period = cp;
  cir_unit_per_period = cu;
  pbs = entry.pbs;
  cbs = entry.cbs;
  pbs_left = entry.pbs;
  cbs_left = entry.cbs;
})
data_of entry none cir = none
data_of entry (some pir) none = none

unfoldable pub convert_meter_entry_to_data : MeterEntry → Option MeterData
unfolding convert_rate
convert_meter_entry_to_data entry = data_of entry (convert_rate entry.pir) (convert_rate entry.cir)
