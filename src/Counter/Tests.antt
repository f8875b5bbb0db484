-- ===== src/Counter/Tests.antt =====
-- Examples of counters, on a kernel that is a list of entries.
use nikss.Base.{ℕ, ◌≡◌, refl, none, some, List, [], ◌∷◌, arith}
use nikss.Bpf.Types.{ok, MapCalls, MapType}
use nikss.Bpf.Assoc.{find, keys, assoc_calls, assoc_calls-updates}
use nikss.Bpf.Exec.{Proc}
use nikss.Table.AssocKeys.{assoc_calls-KeyLaws}
use nikss.Struct.Buffer.{Bytes}
use nikss.Struct.Fields.{construct_struct_from_fields, setup_struct_field_descriptor_set_no_btf}
use nikss.Counter.Value.{CounterType, convert_counter_entry_to_data}
use nikss.Struct.Equal.{bytes_eq}
use nikss.Counter.Access.{CounterEntry, CounterContext, counter_set, counter_get, counter_reset}
use nikss.Counter.Stored.{counter_get-counter_set, counter_reset-all, nothing}

abbrev World : Type 0
World = List (ℕ × Bytes × Bytes)

abbrev calls : MapCalls World Bytes Bytes
calls = assoc_calls 8 (λ t. t) (λ w t. t)

abbrev ctx : CounterContext
ctx = record {
  counter = record {
    fd = some 3;
    type = MapType.hash;
    key_size = 1;
    value_size = 4;
    max_entries = 8;
  };
  counter_type = CounterType.bytes_and_packets;
  key_fds = setup_struct_field_descriptor_set_no_btf 1;
  prev_entry_key = none;
}

abbrev entry : CounterEntry
entry = record {
  entry_key = (9 ∷ []) ∷ [];
  raw_key = none;
  value = record { bytes = 300; packets = 5 };
}

abbrev empty : Proc World
empty = record { world = []; open_fds = 4 }

abbrev encoded : Bytes
encoded = 44 ∷ 1 ∷ 5 ∷ 0 ∷ []

encodes : convert_counter_entry_to_data CounterType.bytes_and_packets 4 entry.value ≡ some encoded
unfolding convert_counter_entry_to_data
encodes = refl

builds : construct_struct_from_fields ((9 ∷ []) ∷ []) ctx.key_fds 1 ≡ ok (9 ∷ [])
unfolding construct_struct_from_fields
builds = refl

stored_example :
    (e : CounterEntry) × (counter_set calls 1 ctx entry empty
      ≡ ((ok tt, e), record empty { world = (3, 9 ∷ [], encoded) ∷ [] }))
    × ((counter_get calls ctx e ((3, 9 ∷ [], encoded) ∷ [])).0 ≡ ok tt)
    × ((counter_get calls ctx e ((3, 9 ∷ [], encoded) ∷ [])).1.value ≡ entry.value)
stored_example =
    counter_get-counter_set calls (λ w m k. find w m k)
      (assoc_calls-updates 8 (λ t. t) (λ w t. t) (λ w t. refl)) ctx entry 3 1 empty
      ((3, 9 ∷ [], encoded) ∷ []) (9 ∷ []) [] (9 ∷ []) encoded refl refl builds encodes refl
      (omega arith) (omega arith)

abbrev counting : Proc World
counting = record { world = (3, 9 ∷ [], encoded) ∷ (3, 8 ∷ [], encoded) ∷ []; open_fds = 4 }

encodes_nothing :
    convert_counter_entry_to_data CounterType.bytes_and_packets 4 nothing
    ≡ some (0 ∷ 0 ∷ 0 ∷ 0 ∷ [])
unfolding convert_counter_entry_to_data
encodes_nothing = refl

reset_example :
    (w' : World) × (counter_reset calls 3 ctx (record entry { entry_key = [] }) counting
      ≡ ((ok tt, record entry { entry_key = []; value = nothing }), record counting { world = w' }))
    × (keys w' 3 ≡ [])
reset_example =
    counter_reset-all calls (λ w m. keys w m) (assoc_calls-KeyLaws 8) 3 ctx
      (record entry { entry_key = [] }) 3 counting (0 ∷ 0 ∷ 0 ∷ 0 ∷ []) refl refl refl
      encodes_nothing (omega arith)
