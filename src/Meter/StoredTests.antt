-- ===== src/Meter/StoredTests.antt =====
-- A meter, and what is stored in it: 12.5 million bytes per second with bursts of 2500 bytes.
use nikss.Base.{ℕ, ◌≡◌, refl, some, List, [], ◌∷◌, arith}
use nikss.Bpf.Types.{ok, MapCalls, MapType, closed_descriptor}
use nikss.Bpf.Assoc.{find, assoc_calls, assoc_calls-updates}
use nikss.Bpf.Exec.{Proc}
use nikss.Struct.Buffer.{Bytes}
use nikss.Struct.Equal.{bytes_eq}
use nikss.Struct.Constructed.{zeros}
use nikss.Struct.Fields.{
  setup_struct_field_descriptor_set_no_btf, construct_struct_from_fields, by_fields, copy_at,
  fix_struct_data_byte_order,
}
use nikss.Meter.Rate.{
  MeterData, convert_meter_entry_to_data, convert_meter_data_to_entry, convert_rate,
}
use nikss.Meter.Access.{
  IndexedEntry, MeterContext, meter_ctx_init, meter_entry_init, meter_entry_update, meter_entry_get,
  meter_entry_reset, data_bytes,
}
use nikss.Table.Clear.{delete_all_map_entries, clear_from}
use nikss.Meter.Stored.{Fits64, meter_entry_get-meter_entry_update}

abbrev Cells : Type 0
Cells = List (ℕ × Bytes × Bytes)

abbrev calls : MapCalls Cells Bytes Bytes
calls = assoc_calls 8 (λ w. w) (λ w t. t)

abbrev ctx : MeterContext
ctx = record meter_ctx_init {
  meter = record closed_descriptor {
    fd = some 6;
    type = MapType.hash;
    key_size = 2;
    value_size = 84;
  };
  index_fds = setup_struct_field_descriptor_set_no_btf 2;
}

abbrev reader : IndexedEntry
reader = record meter_entry_init { index_sfs = (4 ∷ 0 ∷ []) ∷ [] }

abbrev entry : IndexedEntry
entry = record reader { rates = record { pir = 12500000; pbs = 2500; cir = 12500000; cbs = 2500 } }

abbrev d : MeterData
d = record {
  pir_period = 160;
  pir_unit_per_period = 2;
  cir_period = 160;
  cir_unit_per_period = 2;
  pbs = 2500;
  cbs = 2500;
  pbs_left = 2500;
  cbs_left = 2500;
}

abbrev fitting : Fits64 d
fitting = record {
  pir_period = omega arith;
  pir_unit_per_period = omega arith;
  cir_period = omega arith;
  cir_unit_per_period = omega arith;
  pbs = omega arith;
  cbs = omega arith;
  pbs_left = omega arith;
  cbs_left = omega arith;
}

abbrev value : Bytes
value = copy_at 0 (data_bytes d (3, 9)) (zeros 84)

abbrev empty : Proc Cells
empty = record { world = []; open_fds = 4 }

-- A reset without an index deletes all entries.
reset_run :
    meter_entry_reset calls
      (3, 9)
      3
      ctx
      meter_entry_init
      (record empty { world = (6, 4 ∷ 0 ∷ [], []) ∷ (6, 5 ∷ 0 ∷ [], []) ∷ [] })
    ≡ ((ok tt, meter_entry_init), empty)
unfolding meter_entry_reset delete_all_map_entries clear_from
reset_run = refl

meter-stored_example :
    (meter_entry_update calls (3, 9) ctx entry empty ≡ (
      (ok tt, record entry { raw_index = some (4 ∷ 0 ∷ []) }),
      record empty { world = (6, 4 ∷ 0 ∷ [], value) ∷ [] },
    ))
    × (meter_entry_get calls ctx reader ((6, 4 ∷ 0 ∷ [], value) ∷ []) ≡ (
      ok tt,
      record reader {
        raw_index = some (4 ∷ 0 ∷ []);
        rates = record { pir = 12500000; pbs = 2500; cir = 12500000; cbs = 2500 };
      },
    ))
unfolding construct_struct_from_fields by_fields fix_struct_data_byte_order
    convert_meter_entry_to_data convert_meter_data_to_entry convert_rate
meter-stored_example =
    meter_entry_get-meter_entry_update calls (λ w fd k. find w fd k)
      (assoc_calls-updates 8 (λ w. w) (λ w t. t) (λ w t. refl)) (3, 9) ctx entry reader 6 empty
      (4 ∷ 0 ∷ []) [] (4 ∷ 0 ∷ []) d refl (omega arith) refl refl refl refl fitting
      ((6, 4 ∷ 0 ∷ [], value) ∷ []) refl
