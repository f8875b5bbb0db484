-- ===== src/Direct/Write.antt =====
-- The direct counters and meters in the value of an entry, in lib/nikss_table.c. Where an index goes beyond
-- an array, or a rate cannot be converted, C leaves the behaviour undefined, and nothing is said: `hangs`.
use nikss.Base.{
  ℕ, Bool, true, false, not, Option, none, some, List, [], ◌∷◌, ◌==◌, get_elem?, if◌then◌else◌, map,
}
use nikss.Bpf.Types.{
  Result, ok, err, hangs, MapCalls, UpdateFlag, any, noexist, exist, einval, ebadf, enoent,
}
use nikss.Struct.Buffer.{Bytes}
use nikss.Struct.Fields.{copy_at}
use nikss.Struct.Slices.{slice}
use nikss.Counter.Value.{first, convert_counter_entry_to_data, convert_counter_data_to_entry}
use nikss.Meter.Rate.{convert_meter_entry_to_data, convert_meter_data_to_entry}
use nikss.Meter.Access.{data_bytes, data_from, data_size}
use nikss.Direct.Counter.{DirectCounterContext, DirectCounterEntry}
use nikss.Direct.Meter.{DirectMeterContext, DirectMeterEntry}

-- The numbers of all counters are taken from the old value.
unfoldable pub copy_old : List DirectCounterContext → Bytes → Bytes → Bytes
copy_old [] old value = value
copy_old (c ∷ cs) old value =
    copy_old cs old (copy_at c.counter_offset (slice c.counter_offset c.counter_size old) value)

-- One round of the loop: the bytes of the counter go to the offset of the context at the position of
-- the round, the first one of `from_here`, and `rest` is what the loop does on then.
abbrev pub write_counter :
    Option DirectCounterContext
    → List DirectCounterContext
    → DirectCounterEntry
    → Bytes
    → (List DirectCounterContext → Bytes → Result Bytes)
    → Result Bytes
write_counter none from_here e value rest = err einval
write_counter (some c) [] e value rest = hangs
write_counter (some c) (here ∷ behind) e value rest =
    elim (convert_counter_entry_to_data c.counter_type c.counter_size e.counter) [
      | none ↦ err ebadf
      | some bytes ↦ rest behind (copy_at here.counter_offset bytes value)
    ]

-- The loop over the counters of the entry, where `from_here` are the contexts from the position of the
-- round on.
unfoldable pub write_counters :
    List DirectCounterContext
    → List DirectCounterContext
    → List DirectCounterEntry
    → Bytes
    → Result Bytes
unfolding convert_counter_entry_to_data
write_counters contexts from_here [] value = ok value
write_counters contexts from_here (e ∷ es) value =
    write_counter (get_elem? contexts e.counter_idx) from_here e value
      (λ behind value'. write_counters contexts behind es value')

unfoldable pub write_meters : List DirectMeterContext → List DirectMeterEntry → Bytes → Result Bytes
unfolding convert_meter_entry_to_data
write_meters contexts [] value = ok value
write_meters contexts (e ∷ es) value = elim (get_elem? contexts e.meter_idx) [
  | none ↦ err einval
  | some c ↦ elim (c.meter_size == data_size) [
    | false ↦ err einval
    | true ↦ elim (convert_meter_entry_to_data e.meter) [
      | none ↦ hangs
      -- all numbers but the two times, which are the last ones
      | some d ↦
          write_meters contexts es (copy_at c.meter_offset (first 64 (data_bytes d (0, 0))) value)
    ]
  ]
]

abbrev pub handle_direct_meter_write :
    List DirectMeterContext → List DirectMeterEntry → Bytes → Result Bytes
handle_direct_meter_write = write_meters

abbrev pub then_do : Result Bytes → (Bytes → Result Bytes) → Result Bytes
then_do (ok value) rest = rest value
then_do (err e) rest = err e
then_do hangs rest = hangs

module _ {W : Type 0} (calls : MapCalls W Bytes Bytes) where
  -- the value with the old numbers in it
  abbrev pub value_on : UpdateFlag → List DirectCounterContext → Result Bytes → Bytes → Result Bytes
  value_on exist contexts (ok old) value = ok (copy_old contexts old value)
  value_on exist contexts (err e) value = err enoent
  value_on exist contexts hangs value = hangs
  value_on any contexts found value = ok value
  value_on noexist contexts found value = ok value

  -- `fd` and `key` are where the entry is, or will be.
  unfoldable pub handle_direct_counter_write :
      ℕ
      → Bytes
      → List DirectCounterContext
      → List DirectCounterEntry
      → UpdateFlag
      → Bytes
      → W
      → Result Bytes
  unfolding copy_old write_counters
  handle_direct_counter_write fd key [] entries flag value w = ok value
  handle_direct_counter_write fd key (c ∷ cs) entries flag value w =
      then_do (value_on flag (c ∷ cs) (calls.lookup w fd key) value)
        (write_counters (c ∷ cs) (c ∷ cs) entries)

  -- `typed` tells whether the table has BTF and a type of its values.
  unfoldable pub handle_direct_objects_write :
      Bool
      → Bool
      → ℕ
      → Bytes
      → List DirectCounterContext × List DirectMeterContext
      → List DirectCounterEntry × List DirectMeterEntry
      → UpdateFlag
      → Bytes
      → W
      → Result Bytes
  unfolding handle_direct_counter_write write_meters
  handle_direct_objects_write is_indirect typed fd key (cs, ms) (counters, meters) flag value w =
      if is_indirect
      then ok value
      else if not typed
      then ok value
      else then_do (handle_direct_meter_write ms meters value)
          (λ value'. handle_direct_counter_write fd key cs counters flag value' w)

-- The counters of a value, which replace those of the entry where the table has any.
unfoldable pub parse_table_value_direct_counter :
    List DirectCounterContext → List DirectCounterEntry → Bytes → List DirectCounterEntry
unfolding convert_counter_data_to_entry
parse_table_value_direct_counter [] entries value = entries
parse_table_value_direct_counter (c ∷ cs) entries value =
    map
      (λ d. record {
        counter =
            convert_counter_data_to_entry (slice d.counter_offset d.counter_size value)
              d.counter_size d.counter_type;
        counter_idx = d.counter_idx;
      })
      (c ∷ cs)

unfoldable pub parse_table_value_direct_meter :
    List DirectMeterContext → List DirectMeterEntry → Bytes → List DirectMeterEntry
unfolding convert_meter_data_to_entry
parse_table_value_direct_meter [] entries value = entries
parse_table_value_direct_meter (c ∷ cs) entries value =
    map
      (λ d. record {
        meter = convert_meter_data_to_entry (data_from (slice d.meter_offset data_size value));
        meter_idx = d.meter_idx;
      })
      (c ∷ cs)
