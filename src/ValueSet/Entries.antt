-- ===== src/ValueSet/Entries.antt =====
-- lib/nikss_value_set.c: the entries of a value set, by the functions on tables.
use nikss.Base.{ℕ, Option, none, some, if◌then◌else◌, replicate, false}
use nikss.Bpf.Types.{Result, ok, err, hangs, ebadf, any, noexist, UpdateFlag, closed_descriptor}
use nikss.Bpf.Exec.{Proc, Exec, settle}
use nikss.Struct.Buffer.{Bytes}
use nikss.Table.Types.{TableContext, TableCalls, TableEntry}
use nikss.Table.MatchKey.{table_entry_init}
use nikss.Table.Tuples.{Tuple}
use nikss.Table.Entry.{key_buffer}
use nikss.Table.Delete.{table_entry_del}
use nikss.Table.ReadKey.{parse_table_key, Filled}
use nikss.Table.Iterate.{table_entry_goto_next_key}
use nikss.Table.Clear.{is_array}
use nikss.ValueSet.Context.{ValueSetContext}

-- The context of a table that stands for the set; the parts that the functions on tables do not use
-- here are left out.
abbrev pub table_context : ValueSetContext → TableContext
table_context ctx = record {
  table = ctx.set_map;
  default_entry = closed_descriptor;
  is_indirect = false;
  is_ternary = ctx.is_ternary_match;
  prefixes = ctx.prefixes;
  tuple_map = ctx.tuple_map;
  cache = ctx.cache;
  key_type = ctx.key_type;
  current_raw_key = ctx.current_raw_key;
  current_raw_key_mask = ctx.current_raw_key_mask;
}

-- what the iteration has changed, moved back
abbrev moved_back : ValueSetContext → TableContext → ValueSetContext
moved_back ctx tec = record ctx {
  set_map = record ctx.set_map { fd = tec.table.fd };
  current_raw_key = tec.current_raw_key;
  current_raw_key_mask = tec.current_raw_key_mask;
}

module _ {W : Type 0} (calls : TableCalls W) where
  abbrev pub Next : Type 0
  Next = Option TableEntry × ValueSetContext × Proc W

  abbrev parsed : Filled → Option TableEntry
  parsed (ok u, entry) = some entry
  parsed (err e, entry) = none
  parsed (hangs, entry) = none

  abbrev pub next_parsed : ValueSetContext → Tuple W (Unit {0}) → Next
  next_parsed ctx (ok u, tec, s) = (
    parsed (parse_table_key tec table_entry_init tec.current_raw_key tec.current_raw_key_mask),
    moved_back ctx tec,
    s,
  )
  next_parsed ctx (err e, tec, s) = (none, moved_back ctx tec, s)
  next_parsed ctx (hangs, tec, s) = (none, moved_back ctx tec, s)

  unfoldable pub value_set_get_next_entry : ValueSetContext → Proc W → Next
  value_set_get_next_entry ctx s =
      next_parsed ctx (table_entry_goto_next_key calls (table_context ctx) s)

  abbrev insert_flag : ValueSetContext → UpdateFlag
  insert_flag ctx = if is_array ctx.set_map.type then any else noexist

  abbrev pub insert_key : ValueSetContext → Option ℕ → Result Bytes → Exec W (Unit {0})
  insert_key ctx none (ok key) s = (err ebadf, s)
  insert_key ctx (some fd) (ok key) s =
      settle
        (calls.entries.update s.world fd key (replicate ctx.set_map.value_size 0) (insert_flag ctx))
        s
  insert_key ctx fd (err e) s = (err e, s)
  insert_key ctx fd hangs s = (hangs, s)

  -- The cache is not cleared.
  unfoldable pub value_set_insert : ValueSetContext → TableEntry → Exec W (Unit {0})
  value_set_insert ctx entry s =
      insert_key ctx ctx.set_map.fd (key_buffer (table_context ctx) entry) s

  abbrev pub without_context : Tuple W (Unit {0}) → Result (Unit {0}) × Proc W
  without_context (r, tec, s) = (r, s)

  -- The context of the table is a copy.
  unfoldable pub value_set_delete : ℕ → ValueSetContext → TableEntry → Exec W (Unit {0})
  value_set_delete fuel ctx entry s =
      without_context (table_entry_del calls fuel entry (table_context ctx) s)
