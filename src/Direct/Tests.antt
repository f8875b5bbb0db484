-- ===== src/Direct/Tests.antt =====
-- Direct counters and meters of a table with two of each.
use Prim.Native.String.{String}
use nikss.Base.{ℕ, ◌≡◌, refl, false, some, List, [], ◌∷◌, arith}
use nikss.Bpf.Types.{ok, err, enoent}
use nikss.Counter.Value.{CounterType}
use nikss.Direct.Found.{find_name}
use nikss.Direct.Counter.{
  DirectCounterContext, EntryCounters, direct_counter_ctx_init, direct_counter_ctx_name,
  direct_counter_get_entry, table_entry_set_direct_counter,
  direct_counter_get_entry-set_direct_counter,
}

abbrev counter : String → ℕ → DirectCounterContext
counter name offset = record direct_counter_ctx_init {
  name = some name;
  counter_type = CounterType.bytes;
  counter_size = 8;
  counter_offset = offset;
}

abbrev contexts : List DirectCounterContext
contexts = counter "dropped" 8 ∷ counter "passed" 16 ∷ []

named_run :
    direct_counter_ctx_name direct_counter_ctx_init contexts "passed"
    ≡ (ok tt, record (counter "passed" 16) { counter_idx = 1; mem_can_be_freed = false })
unfolding direct_counter_ctx_name find_name
named_run = refl

missing_run :
    direct_counter_ctx_name direct_counter_ctx_init contexts "other"
    ≡ (err enoent, direct_counter_ctx_init)
unfolding direct_counter_ctx_name find_name
missing_run = refl

abbrev numbered : ℕ → DirectCounterContext
numbered idx = record (counter "passed" 16) { counter_idx = idx }

abbrev one_set : EntryCounters
one_set = record {
  direct_counters = (record { counter = record { bytes = 5; packets = 1 }; counter_idx = 0 }) ∷ [];
  current_direct_counter_ctx_id = 0;
}

direct-set_example :
    (direct_counter_get_entry
        (numbered 1)
        (table_entry_set_direct_counter one_set (numbered 1) (record { bytes = 9; packets = 2 }))
      ≡ (ok tt, record { bytes = 9; packets = 2 }))
    × (direct_counter_get_entry
          (numbered 0)
          (table_entry_set_direct_counter one_set (numbered 1) (record { bytes = 9; packets = 2 }))
        ≡ direct_counter_get_entry (numbered 0) one_set)
unfolding direct_counter_get_entry nikss.Direct.ByIndex.find_index
direct-set_example =
    direct_counter_get_entry-set_direct_counter one_set (numbered 1) (numbered 0)
      (record { bytes = 9; packets = 2 }) (ground arith)
