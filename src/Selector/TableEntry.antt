-- ===== src/Selector/TableEntry.antt =====
-- The functions of lib/nikss_table.c as lib/nikss_action_selector.c calls them: the table is the map
-- of members, or that of the action for an empty group, the key is a reference, and there is no BTF.
use nikss.Base.{ℕ, false, Option, none, some, [], ◌∷◌}
use nikss.Bpf.Types.{Result, ok, err, hangs, MapDescriptor, closed_descriptor}
use nikss.Bpf.Exec.{Proc}
use nikss.Counter.Value.{to_bytes}
use nikss.Table.Types.{TableContext, TableCalls, TableEntry}
use nikss.Table.MatchKey.{matchkey_init, table_entry_init}
use nikss.Table.Entry.{table_entry_update}
use nikss.Table.Get.{table_entry_get}
use nikss.Selector.Types.{SelectorCalls, Action}
use nikss.Selector.Context.{empty_action}

-- a descriptor that an initializer does not name, which is all zeros
abbrev pub zero_descriptor : MapDescriptor
zero_descriptor = record closed_descriptor { fd = some 0 }

-- `tec`, with its table and its cache
abbrev pub table_of : MapDescriptor → MapDescriptor → TableContext
table_of table cache = record {
  table = table;
  default_entry = zero_descriptor;
  is_indirect = false;
  is_ternary = false;
  prefixes = zero_descriptor;
  tuple_map = zero_descriptor;
  cache = cache;
  key_type = none;
  current_raw_key = none;
  current_raw_key_mask = none;
}

-- `te`, with one exact key, which is a number of 32 bits
abbrev pub entry_at : ℕ → Option Action → TableEntry
entry_at ref action = record table_entry_init {
  match_keys = (record matchkey_init { bytes = some (to_bytes 4 ref) }) ∷ [];
  action = action;
}

abbrev pub run_in : {W : Type 0} → W → Proc W
run_in w = record { world = w; open_fds = 0 }

-- The action of an entry that was read; one without an action leaves that of the caller, which is
-- empty.
abbrev pub action_read : Result TableEntry → Result Action
action_read (ok entry) = elim entry.action [ none ↦ ok empty_action | some action ↦ ok action ]
action_read (err e) = err e
action_read hangs = hangs

module _ {W : Type 0} (calls : TableCalls W) (fuel : ℕ) where
  unfoldable pub table_update :
      MapDescriptor → MapDescriptor → ℕ → Action → W → Result (Unit {0}) × W
  table_update table cache ref action w =
      let (r, ctx, s) =
        table_entry_update calls fuel (entry_at ref (some action)) (table_of table cache)
          (run_in w) in
      (r, s.world)

  -- Reading makes no use of the cache.
  unfoldable pub table_get : MapDescriptor → ℕ → W → Result Action
  table_get table ref w =
      action_read
        (table_entry_get calls fuel (entry_at ref none) (table_of table zero_descriptor)
          (run_in w)).0

  -- The calls of a selector, with these two for the calls on tables.
  abbrev pub with_tables : SelectorCalls W → SelectorCalls W
  with_tables selector = record selector {
    table_entry_update = table_update;
    table_entry_get = table_get;
  }
