-- ===== src/Table/EntryTests.antt =====
-- Tests of the entries of tables, and examples of what is proved of them.
use nikss.Base.{◌≡◌, refl, none, some, [], ◌∷◌, arith}
use nikss.Bpf.Types.{ok, noexist, MapType}
use nikss.Struct.Buffer.{Bytes}
use nikss.Table.Types.{TableEntry, TableContext}
use nikss.Table.Stored.{Fits, table_entry_get-table_entry_add}
use nikss.Table.CacheEmpty.{table_entry_write-cache}
use nikss.Table.Entry.{table_entry_add, table_entry_write}
use nikss.Table.Get.{table_entry_get}
use nikss.Table.Sim.{
  SimWorld, sim_calls, sim_entries-laws, sim_cached-laws, cached_keys, cached_keys-bounded,
  plain_table, cached_table, ternary_table, exact_key, ternary_key, entry_with, start, map_of,
  prefix_key,
}
use nikss.Bpf.Assoc.{find}
use nikss.Table.Write.{construct_buffer, mem_bitwise_and}
use nikss.Table.Keys.{fill_key_byte_by_byte, fill_keys}
use nikss.Table.Values.{fill_value_byte_by_byte, fill_params}
use nikss.Table.Clear.{clear_table_cache, delete_all_map_entries, clear_from}
use nikss.Table.Tuples.{
  ternary_table_close_tuple, ternary_table_open_tuple, ternary_table_add_tuple_and_open,
}
use nikss.Table.Masks.{fill_key_mask_byte_by_byte, fill_masks}
use nikss.Table.Prefixes.{add_ternary_table_prefix, get_ternary_table_prefix_md, walk_prefixes}
use nikss.Struct.Equal.{bytes_eq}
use nikss.Struct.Constructed.{zeros}
use nikss.Table.Joined.{fill_key_byte_by_byte-trie}
use nikss.Table.Masked.{mem_bitwise_and_lem}

abbrev entry : TableEntry
entry = entry_with (exact_key (1 ∷ 2 ∷ []) ∷ [])

abbrev fitting :
    Fits plain_table entry (record { action_id = 3; params = (7 ∷ []) ∷ (8 ∷ []) ∷ [] }) 5
fitting = record {
  keys = record {
    plain = refl;
    untyped = refl;
    no_trie = refl;
    opened = refl;
    key_sized = refl;
    value_sized = refl;
    key_fits = refl;
  };
  no_array = refl;
  acting = refl;
  value_fits = refl;
}

abbrev stored : SimWorld
stored = record start.world { entries = (5, 1 ∷ 2 ∷ [], 3 ∷ 0 ∷ 0 ∷ 0 ∷ 7 ∷ 8 ∷ []) ∷ [] }

get-add_example :
    (table_entry_add sim_calls 3 entry plain_table start
      ≡ (ok tt, plain_table, record start { world = stored }))
    × ((table_entry_get sim_calls 3 entry plain_table (record start { world = stored })).0
        ≡ ok
            (record entry { action = some (record { action_id = 3; params = (7 ∷ 8 ∷ []) ∷ [] }) }))
get-add_example =
    table_entry_get-table_entry_add plain_table entry _ 5 fitting sim_calls 3 start
      (λ w fd k. find w.entries fd k) sim_entries-laws (exact_key (1 ∷ 2 ∷ [])) [] stored refl refl
      (omega arith) (omega arith) refl

cache_run :
    table_entry_write sim_calls 3 entry noexist cached_table start
    ≡ (ok tt, cached_table, record start { world = record stored { cached = none } })
unfolding table_entry_write construct_buffer fill_key_byte_by_byte fill_keys fill_value_byte_by_byte
    fill_params mem_bitwise_and clear_table_cache delete_all_map_entries clear_from
    ternary_table_close_tuple ternary_table_open_tuple
cache_run = refl

cache_example : cached_keys (record stored { cached = none }) 9 ≡ []
cache_example =
    table_entry_write-cache sim_calls cached_keys sim_cached-laws 3 9
      (λ w. omega (arith, cached_keys-bounded w 9)) entry noexist cached_table cached_table start
      (record start { world = record stored { cached = none } }) refl refl cache_run

abbrev mask : Bytes
mask = 255 ∷ 255 ∷ 0 ∷ 0 ∷ []

-- a ternary table
abbrev masked : TableEntry
masked = record (entry_with (ternary_key (10 ∷ 1 ∷ 2 ∷ 3 ∷ []) mask ∷ [])) {
  action = some (record { action_id = 3; params = [] });
  priority = 5;
}

-- The first prefix is linked behind the head, its tuple is the map 21, and the key is masked.
abbrev with_tuple : SimWorld
with_tuple = record start.world {
  entries = (21, 10 ∷ 1 ∷ 0 ∷ 0 ∷ [], 3 ∷ 0 ∷ 0 ∷ 0 ∷ 5 ∷ 0 ∷ 0 ∷ 0 ∷ []) ∷ [];
  prefixes =
      (6, mask, 1 ∷ 0 ∷ 0 ∷ 0 ∷ 0 ∷ 0 ∷ 0 ∷ 0 ∷ 0 ∷ 0 ∷ 0 ∷ 0 ∷ [])
      ∷ (6, 0 ∷ 0 ∷ 0 ∷ 0 ∷ [], 0 ∷ 0 ∷ 0 ∷ 0 ∷ 255 ∷ 255 ∷ 0 ∷ 0 ∷ 1 ∷ 0 ∷ 0 ∷ 0 ∷ [])
      ∷ [];
  tuples = (7, 1, 21) ∷ [];
  last_map = 21;
}

ternary_run :
    table_entry_add sim_calls 3 masked ternary_table start
    ≡ (ok tt, ternary_table, record start { world = with_tuple })
unfolding table_entry_add table_entry_write construct_buffer fill_key_byte_by_byte fill_keys
    fill_value_byte_by_byte fill_params mem_bitwise_and clear_table_cache delete_all_map_entries
    clear_from ternary_table_close_tuple ternary_table_open_tuple fill_key_mask_byte_by_byte
    fill_masks add_ternary_table_prefix get_ternary_table_prefix_md walk_prefixes
    ternary_table_add_tuple_and_open
ternary_run = refl

abbrev trie : TableContext
trie = record plain_table { table = record (map_of MapType.lpm_trie 8 6) { fd = some 5 } }

-- 10.0.0.0/8, in host byte order
trie_example :
    fill_key_byte_by_byte trie (entry_with (prefix_key (0 ∷ 0 ∷ 0 ∷ 10 ∷ []) 8 ∷ [])) (zeros 8)
    ≡ ok (8 ∷ 0 ∷ 0 ∷ 0 ∷ 10 ∷ 0 ∷ 0 ∷ 0 ∷ [])
trie_example =
    fill_key_byte_by_byte-trie trie (entry_with (prefix_key (0 ∷ 0 ∷ 0 ∷ 10 ∷ []) 8 ∷ [])) refl
      (omega arith) refl

-- a key of 6 bytes, of which the last two are not masked
and_example : mem_bitwise_and (1 ∷ 2 ∷ 3 ∷ 4 ∷ 5 ∷ 6 ∷ []) (zeros 6) 6 ≡ 0 ∷ 0 ∷ 0 ∷ 0 ∷ 5 ∷ 6 ∷ []
and_example = mem_bitwise_and_lem (1 ∷ 2 ∷ 3 ∷ 4 ∷ 5 ∷ 6 ∷ []) (zeros 6) 6 refl refl
