-- ===== src/ValueSet/Empty.antt =====
-- The iteration over a ternary value set of lib/nikss_value_set.c without entries.
use nikss.Base.{ℕ, suc, ◌≡◌, refl, true, none, some, replicate}
use nikss.Bpf.Types.{err, MapDescriptor}
use nikss.Bpf.Exec.{Proc}
use nikss.Table.Types.{TableCalls}
use nikss.Table.MatchKey.{table_entry_init, matchkey_data, matchkey_mask, table_entry_matchkey}
use nikss.Table.Iterate.{table_entry_goto_next_key, get_next_ternary_table_key_mask, walk_tuples}
use nikss.Table.ReadKey.{parse_table_key, parse_table_key_no_btf}
use nikss.ValueSet.Context.{ValueSetContext}
use nikss.ValueSet.Entries.{value_set_get_next_entry}

module _ {W : Type 0} (calls : TableCalls W) (set_map prefixes tuple_map cache : MapDescriptor)
    (fd n : ℕ) where
  -- a ternary set without the type of its key, of which no tuple is open
  abbrev pub ternary_set : ValueSetContext
  ternary_set = record {
    set_map = record set_map { fd = none };
    prefixes = record prefixes { fd = some fd; max_entries = suc n };
    tuple_map = tuple_map;
    cache = cache;
    key_type = none;
    is_ternary_match = true;
    current_raw_key = none;
    current_raw_key_mask = none;
  }

  -- Let a ternary value set without a type for its key have no tuple open and not be iterated over
  -- yet. If the list of prefixes has no head, as where nothing has ever been added, the iteration
  -- gives an entry without keys, and the set is as before, so that it gives the same entry without
  -- end.
  pub value_set_get_next_entry-empty :
      (s : Proc W) (e : ℕ)
      → calls.prefix_list.lookup s.world fd (replicate prefixes.key_size 0) ≡ err e
      → value_set_get_next_entry calls ternary_set s ≡ (some table_entry_init, ternary_set, s)
  unfolding value_set_get_next_entry table_entry_goto_next_key get_next_ternary_table_key_mask
      walk_tuples parse_table_key parse_table_key_no_btf matchkey_data matchkey_mask
      table_entry_matchkey
  value_set_get_next_entry-empty s e absent = rw absent refl
