-- ===== src/Meter/Tests.antt =====
-- An example of a meter: 12.5 million bytes per second.
use nikss.Base.{◌≡◌, some, arith}
use nikss.Meter.Rate.{
  MeterEntry, MeterData, convert_meter_entry_to_data, convert_meter_data_to_entry,
}
use nikss.Meter.Converted.{IsPeriodOf, convert_meter_entry_to_data_lem}

abbrev metered : MeterEntry
metered = record { pir = 12500000; pbs = 2500; cir = 1000; cbs = 1500 }

meter_example :
    (d : MeterData) × (convert_meter_entry_to_data metered ≡ some d)
    × IsPeriodOf 12500000 d.pir_period d.pir_unit_per_period
    × IsPeriodOf 1000 d.cir_period d.cir_unit_per_period
    × ((d.pbs_left ≡ 2500) × (d.cbs_left ≡ 1500))
    × (((convert_meter_data_to_entry d).pbs ≡ 2500) × ((convert_meter_data_to_entry d).cbs ≡ 1500))
meter_example =
    convert_meter_entry_to_data_lem metered (omega arith) (omega arith) (omega arith) (omega arith)
