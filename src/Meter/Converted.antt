-- ===== src/Meter/Converted.antt =====
-- The conversions of lib/nikss_meter.c: periods and the rates that they stand for.
use nikss.Base.{
  ℕ, ◌+◌, ◌-◌, ◌*◌, ◌/◌, ◌<◌, ◌≤◌, ◌≡◌, refl, false, some, ◌==◌, leb, arith, Bool-cases, inl, inr,
}
use native.Mathlib.Nat.{
  mul_comm, mul_assoc, mul-le-mul_left, mul-le-mul_right, div-mul-le_self, le-div_iff_mul-le,
  lt-mul-div-succ, div-le_of_le-mul,
}
use nikss.Meter.Rate.{
  convert_rate, ns_in_s, meter_period_min, MeterEntry, MeterData, convert_meter_entry_to_data,
  convert_meter_data_to_entry,
}

-- A period of a second's parts that represents a rate: rounded down by less than a nanosecond.
pub record IsPeriodOf (rate period unit_per_period : ℕ) : Type 0 where
  pub long : meter_period_min ≤ period
  pub some_units : (1 ≤ unit_per_period) × (unit_per_period ≤ meter_period_min)
  pub not_above : period * rate ≤ ns_in_s * unit_per_period
  pub not_below : ns_in_s * unit_per_period < (period + 1) * rate

-- The division of the code, by a rate that is not 0.
rounded_down : (n rate : ℕ) → 0 < rate → (n / rate * rate ≤ n) × (n < (n / rate + 1) * rate)
rounded_down n rate pos =
    (div-mul-le_self n rate, rw (mul_comm (n / rate + 1) rate) (lt-mul-div-succ n pos))

units_enough :
    (q : ℕ)
    → 0 < q
    → q < 100
    → (100 ≤ (100 + (q - 1)) / q * q) × (1 ≤ (100 + (q - 1)) / q) × ((100 + (q - 1)) / q ≤ 100)
units_enough q pos lt =
    let u : ℕ = (100 + (q - 1)) / q in
    let (above, below) = rounded_down (100 + (q - 1)) q pos in
    (
      omega (arith, above, below),
      (le-div_iff_mul-le pos).1 (omega arith),
      div-le_of_le-mul q (omega arith),
    )

reached_by : (rate q u : ℕ) → 100 ≤ u * q → q * rate ≤ ns_in_s → 100 * rate ≤ ns_in_s * u
reached_by rate q u enough above =
    let a : 100 * rate ≤ u * q * rate = mul-le-mul_right rate enough in
    let b : u * (q * rate) ≤ u * ns_in_s = mul-le-mul_left u above in
    let c : u * q * rate ≡ u * (q * rate) = mul_assoc u q rate in omega (arith, a, b, c)

-- A rate from 1 to 10 ^ 9 units per second is converted to a period of at least 100 nanoseconds and
-- 1 to 100 units in it. The period is the exact one for these units, rounded down by less than a
-- nanosecond.
pub convert_rate_lem :
    (rate : ℕ)
    → 0 < rate
    → rate ≤ ns_in_s
    → (period : ℕ) × (unit_per_period : ℕ) × (convert_rate rate ≡ some (period, unit_per_period))
      × IsPeriodOf rate period unit_per_period
unfolding convert_rate
convert_rate_lem rate pos le =
    let q : ℕ = ns_in_s / rate in
    let (above, below) = rounded_down ns_in_s rate pos in
    let nonzero : (rate == 0) ≡ false = ground arith in
    elim (Bool-cases (leb meter_period_min q)) [
      | inl t ↦ (
        q,
        1,
        rw (nonzero, t) refl,
        record {
          long = ground arith;
          some_units = (omega arith, omega arith);
          not_above = above;
          not_below = below;
        },
      )
      | inr f ↦
          (let positive : 0 < q = (le-div_iff_mul-le pos).1 (omega arith) in
            let short : q < 100 = ground arith in
            let u : ℕ = (100 + (q - 1)) / q in
            let (enough, some_unit, few_units) = units_enough q positive short in
            let (above', below') = rounded_down (ns_in_s * u) rate pos in
            let whole : (q == 0) ≡ false = ground arith in
            let reached : 100 * rate ≤ ns_in_s * u = reached_by rate q u enough above in
            (
              ns_in_s * u / rate,
              u,
              rw (nonzero, f, whole) refl,
              record {
                long = (le-div_iff_mul-le pos).1 reached;
                some_units = (some_unit, few_units);
                not_above = above';
                not_below = below';
              },
            ))
    ]

-- An entry with both rates from 1 to 10 ^ 9 is converted to data whose periods represent the rates,
-- whose bursts are those of the entry and whose buckets are full; reading the data gives the bursts
-- back.
pub convert_meter_entry_to_data_lem :
    (entry : MeterEntry)
    → 0 < entry.pir
    → entry.pir ≤ ns_in_s
    → 0 < entry.cir
    → entry.cir ≤ ns_in_s
    → (d : MeterData) × (convert_meter_entry_to_data entry ≡ some d)
      × IsPeriodOf entry.pir d.pir_period d.pir_unit_per_period
      × IsPeriodOf entry.cir d.cir_period d.cir_unit_per_period
      × ((d.pbs_left ≡ entry.pbs) × (d.cbs_left ≡ entry.cbs))
      × (((convert_meter_data_to_entry d).pbs ≡ entry.pbs)
          × ((convert_meter_data_to_entry d).cbs ≡ entry.cbs))
unfolding convert_meter_entry_to_data convert_meter_data_to_entry
convert_meter_entry_to_data_lem entry ppos ple cpos cle =
    let (pp, pu, pir, p) = convert_rate_lem entry.pir ppos ple in
    let (cp, cu, cir, c) = convert_rate_lem entry.cir cpos cle in
    (
      record {
        pir_period = pp;
        pir_unit_per_period = pu;
        cir_period = cp;
        cir_unit_per_period = cu;
        pbs = entry.pbs;
        cbs = entry.cbs;
        pbs_left = entry.pbs;
        cbs_left = entry.cbs;
      },
      rw (pir, cir) refl,
      p,
      c,
      (refl, refl),
      (refl, refl),
    )
