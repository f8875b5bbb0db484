-- ===== src/Direct/WriteTests.antt =====
-- Direct counters and meters in values.
use Prim.Native.String.{String}
use nikss.Base.{ℕ, ◌≡◌, refl, true, false, some, List, [], ◌∷◌, get_elem?, arith}
use nikss.Bpf.Types.{ok, err, einval, exist, any, MapCalls}
use nikss.Bpf.Assoc.{assoc_calls}
use nikss.Struct.Buffer.{Bytes}
use nikss.Struct.Equal.{bytes_eq}
use nikss.Struct.Slices.{slice}
use nikss.Struct.Constructed.{zeros}
use nikss.Counter.Value.{CounterType, convert_counter_entry_to_data, convert_counter_data_to_entry}
use nikss.Direct.Counter.{DirectCounterContext, DirectCounterEntry, direct_counter_ctx_init}
use nikss.Direct.Write.{
  handle_direct_counter_write, handle_direct_objects_write, parse_table_value_direct_counter,
  write_counters, write_meters,
}
use nikss.Direct.Misplaced.{handle_direct_counter_write-misplaced}

abbrev Cells : Type 0
Cells = List (ℕ × Bytes × Bytes)

abbrev calls : MapCalls Cells Bytes Bytes
calls = assoc_calls 8 (λ w. w) (λ w t. t)

abbrev counter : String → ℕ → ℕ → DirectCounterContext
counter name offset idx = record direct_counter_ctx_init {
  name = some name;
  counter_type = CounterType.bytes;
  counter_size = 2;
  counter_offset = offset;
  counter_idx = idx;
}

abbrev set_to : ℕ → ℕ → DirectCounterEntry
set_to idx n = record { counter = record { bytes = n; packets = 0 }; counter_idx = idx }

abbrev stored : Cells
stored = (6, 4 ∷ [], 7 ∷ 1 ∷ 0 ∷ 2 ∷ 0 ∷ []) ∷ []

-- Setting both in their order puts each into its place.
in_order_run :
    handle_direct_objects_write calls false true 6
      (4 ∷ [])
      (counter "dropped" 1 0 ∷ counter "passed" 3 1 ∷ [], [])
      (set_to 0 8 ∷ set_to 1 9 ∷ [], [])
      any
      (zeros 5)
      []
    ≡ ok (0 ∷ 8 ∷ 0 ∷ 9 ∷ 0 ∷ [])
unfolding handle_direct_objects_write handle_direct_counter_write write_counters write_meters
    convert_counter_entry_to_data
in_order_run = refl

no_counter_run :
    handle_direct_counter_write calls 6
      (4 ∷ [])
      (counter "dropped" 1 0 ∷ [])
      (set_to 1 9 ∷ [])
      any
      (zeros 5)
      []
    ≡ err einval
unfolding handle_direct_counter_write write_counters
no_counter_run = refl

misplaced_example :
    (value : Bytes) × (handle_direct_counter_write calls 6
        (4 ∷ [])
        (counter "dropped" 1 0 ∷ counter "passed" 3 1 ∷ [])
        (set_to 1 9 ∷ [])
        exist
        (zeros 5)
        stored
      ≡ ok value)
    × (slice 1 2 value ≡ 9 ∷ 0 ∷ [])
    × (get_elem?
          (parse_table_value_direct_counter
            (counter "dropped" 1 0 ∷ counter "passed" 3 1 ∷ [])
            []
            value)
          1
        ≡ some (set_to 1 2))
unfolding parse_table_value_direct_counter convert_counter_data_to_entry
    convert_counter_entry_to_data
misplaced_example =
    handle_direct_counter_write-misplaced calls 6 (4 ∷ []) (counter "dropped" 1 0)
      (counter "passed" 3 1) (counter "passed" 3 1 ∷ []) 1 5 0 (set_to 1 9) (7 ∷ 1 ∷ 0 ∷ 2 ∷ 0 ∷ [])
      (zeros 5) (9 ∷ 0 ∷ []) stored (omega arith, (omega arith, omega arith)) (omega arith)
      (omega arith) refl refl refl (omega arith) refl
