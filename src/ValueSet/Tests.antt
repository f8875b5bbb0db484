-- ===== src/ValueSet/Tests.antt =====
-- Examples of what is proved of value sets.
use Prim.Native.String.{String, compare}
use Prim.Native.Nat.{Ordering}
use nikss.Base.{ℕ, ◌≡◌, refl, Bool, true, false, some, [], ◌∷◌, if◌then◌else◌}
use nikss.Bpf.Types.{Result, ok, err, eperm, einval, enoent, MapType, MapInfo}
use nikss.Bpf.Open.{open_bpf_map, update_map_info}
use nikss.Table.Opening.{open_ternary_table, table_entry_ctx_free}
use nikss.Table.Types.{TableCalls}
use nikss.Table.MatchKey.{table_entry_init}
use nikss.Table.Sim.{SimWorld, sim_calls, map_of, exact_key, entry_with, start}
use nikss.ValueSet.Context.{ValueSetContext, value_set_context_init, value_set_context_name}
use nikss.ValueSet.Entries.{value_set_insert, value_set_delete, value_set_get_next_entry}
use nikss.ValueSet.Ternary.{value_set-ternary}
use nikss.ValueSet.Empty.{value_set_get_next_entry-empty, ternary_set}

get_next-empty_example :
    value_set_get_next_entry sim_calls
      (ternary_set sim_calls
        (map_of MapType.other 0 0)
        (map_of MapType.hash 4 12)
        (map_of MapType.hash 4 4)
        (map_of MapType.hash 4 4)
        6
        7)
      start
    ≡ (
      some table_entry_init,
      ternary_set sim_calls
          (map_of MapType.other 0 0)
          (map_of MapType.hash 4 12)
          (map_of MapType.hash 4 4)
          (map_of MapType.hash 4 4)
          6
          7,
      start,
    )
get_next-empty_example =
    value_set_get_next_entry-empty sim_calls (map_of MapType.other 0 0) (map_of MapType.hash 4 12)
      (map_of MapType.hash 4 4) (map_of MapType.hash 4 4) 6 7 start enoent refl

abbrev is_named : String → String → Bool
is_named a b = elim (compare a b) [ Ordering.eq ↦ true | _ ↦ false ]

-- The maps of a ternary set are pinned, and no other.
abbrev pinned : String → Result ℕ
pinned name =
    if is_named name "set_prefixes"
    then ok 6
    else if is_named name "set_tuples_map"
    then ok 7
    else if is_named name "set_tuple"
    then ok 8
    else err enoent

abbrev info : MapInfo
info = record { type = MapType.hash; key_size = 4; value_size = 12; max_entries = 8 }

abbrev set_calls : TableCalls SimWorld
set_calls = record sim_calls {
  files = record sim_calls.files {
    obj_get = λ w path. pinned path.name;
    obj_get_info = λ w fd. ok info;
  };
}

abbrev set : ValueSetContext
set = record value_set_context_init {
  prefixes = record (map_of MapType.hash 4 12) { fd = some 6 };
  tuple_map = record (map_of MapType.hash 4 12) { fd = some 7 };
  is_ternary_match = true;
}

set_opened :
    value_set_context_name set_calls.files 1 "set" value_set_context_init start
    ≡ (ok tt, set, record start { open_fds = 6 })
unfolding value_set_context_name open_bpf_map update_map_info open_ternary_table
    table_entry_ctx_free
set_opened = refl

ternary_example :
    (value_set_insert set_calls set
        (entry_with (exact_key (1 ∷ []) ∷ []))
        (record start { open_fds = 6 })
      ≡ (err eperm, record start { open_fds = 6 }))
    × (value_set_delete set_calls 3 set
          (entry_with (exact_key (1 ∷ []) ∷ []))
          (record start { open_fds = 6 })
        ≡ (err einval, record start { open_fds = 6 }))
ternary_example =
    value_set-ternary set_calls 3 1 "set" start (record start { open_fds = 6 }) set
      (entry_with (exact_key (1 ∷ []) ∷ [])) (exact_key (1 ∷ [])) [] set_opened refl refl refl refl
