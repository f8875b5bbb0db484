-- ===== src/Table/Entry.antt =====
-- lib/nikss_table.c: writing an entry of a table, and its default entry. The map of a table without
-- tuples stays open in its context; that of a tuple is open while a function works on it. Direct
-- counters and meters need the type of the value, and are not modelled.
use nikss.Base.{ℕ, not, ◌||◌, Option, none, some, ◌==◌, if◌then◌else◌, replicate}
use nikss.Bpf.Types.{
  Result, ok, err, hangs, ebadf, enotsup, enodata, UpdateFlag, any, noexist, exist,
}
use nikss.Bpf.Exec.{Proc, Exec}
use nikss.Selector.Types.{Action}
use nikss.Struct.Buffer.{Bytes}
use nikss.Table.Types.{TableContext, TableCalls, TableEntry}
use nikss.Table.Write.{construct_buffer, mem_bitwise_and}
use nikss.Table.Keys.{fill_key_btf_info, fill_key_byte_by_byte}
use nikss.Table.Values.{fill_value_btf_info, fill_value_byte_by_byte}
use nikss.Table.Tuples.{Tuple, ternary_table_open_tuple, ternary_table_close_tuple, mask_of}
use nikss.Table.Clear.{clear_table_cache, is_array}

-- the key of an entry, and its value
abbrev pub key_buffer : TableContext → TableEntry → Result Bytes
key_buffer ctx entry =
    construct_buffer ctx.table.key_size ctx (fill_key_btf_info ctx entry)
      (fill_key_byte_by_byte ctx entry)

abbrev pub value_buffer : ℕ → TableContext → TableEntry → Action → Result Bytes
value_buffer size ctx entry action =
    construct_buffer size ctx (fill_value_btf_info ctx entry action)
      (fill_value_byte_by_byte ctx entry action)

-- In a ternary table the bits that do not count are cleared.
abbrev pub masked_key : TableContext → Option Bytes → Bytes → Bytes
masked_key ctx none key = key
masked_key ctx (some mask) key =
    if ctx.is_ternary then mem_bitwise_and key mask ctx.table.key_size else key

module _ {W : Type 0} (calls : TableCalls W) (fuel : ℕ) where
  -- A change of an entry, and the clearing of the cache if it was made.
  abbrev pub then_clear_cache : TableContext → Result W → Exec W (Unit {0})
  then_clear_cache ctx (ok w) s =
      clear_table_cache calls.cached (replicate ctx.cache.value_size 0) fuel ctx.cache
        (record s { world = w })
  then_clear_cache ctx (err e) s = (err e, s)
  then_clear_cache ctx hangs s = (hangs, s)

  abbrev pub flag_for : TableContext → UpdateFlag → UpdateFlag
  flag_for ctx flag = if is_array ctx.table.type then any else flag

  abbrev pub write_built :
      TableContext → UpdateFlag → Option Bytes → ℕ → Result Bytes → Result Bytes → Exec W (Unit {0})
  write_built ctx flag mask fd (ok key) (ok value) s =
      then_clear_cache ctx
        (calls.entries.update s.world fd (masked_key ctx mask key) value (flag_for ctx flag)) s
  write_built ctx flag mask fd (ok key) (err e) s = (err e, s)
  write_built ctx flag mask fd (ok key) hangs s = (hangs, s)
  write_built ctx flag mask fd (err e) value s = (err e, s)
  write_built ctx flag mask fd hangs value s = (hangs, s)

  abbrev pub write_action :
      TableContext → TableEntry → UpdateFlag → Option Bytes → ℕ → Option Action → Exec W (Unit {0})
  write_action ctx entry flag mask fd none s = (err enodata, s)
  write_action ctx entry flag mask fd (some action) s =
      write_built ctx flag mask fd (key_buffer ctx entry)
        (value_buffer ctx.table.value_size ctx entry action) s

  abbrev pub write_open :
      TableContext → TableEntry → UpdateFlag → Option Bytes → Option ℕ → Exec W (Unit {0})
  write_open ctx entry flag mask none s = (err ebadf, s)
  write_open ctx entry flag mask (some fd) s =
      if ctx.table.key_size == 0 || ctx.table.value_size == 0
      then (err enotsup, s)
      else write_action ctx entry flag mask fd entry.action s

  -- The code behind `clean_up`.
  abbrev pub close_after : TableContext → Result (Unit {0}) × Proc W → Tuple W (Unit {0})
  close_after ctx (r, s) = let (ctx', s') = ternary_table_close_tuple calls ctx s in (r, ctx', s')

  abbrev pub write_tuple : TableEntry → UpdateFlag → Tuple W (Option Bytes) → Tuple W (Unit {0})
  write_tuple entry flag (ok mask, ctx, s) =
      close_after ctx (write_open ctx entry flag mask ctx.table.fd s)
  write_tuple entry flag (err e, ctx, s) = close_after ctx (err e, s)
  write_tuple entry flag (hangs, ctx, s) = (hangs, ctx, s)

  abbrev pub open_tuple : TableEntry → UpdateFlag → TableContext → Proc W → Tuple W (Option Bytes)
  open_tuple entry flag ctx s =
      if ctx.is_ternary
      then mask_of calls (ternary_table_open_tuple calls fuel entry flag ctx s)
      else (ok none, ctx, s)

  unfoldable pub table_entry_write :
      TableEntry → UpdateFlag → TableContext → Proc W → Tuple W (Unit {0})
  table_entry_write entry flag ctx s = write_tuple entry flag (open_tuple entry flag ctx s)

  unfoldable pub table_entry_add : TableEntry → TableContext → Proc W → Tuple W (Unit {0})
  table_entry_add entry ctx s = table_entry_write entry noexist ctx s

  unfoldable pub table_entry_update : TableEntry → TableContext → Proc W → Tuple W (Unit {0})
  table_entry_update entry ctx s = table_entry_write entry exist ctx s

  abbrev set_default : ℕ → TableContext → Result Bytes → Exec W (Unit {0})
  set_default fd ctx (ok value) s =
      then_clear_cache ctx (calls.defaults.update s.world fd 0 value any) s
  set_default fd ctx (err e) s = (err e, s)
  set_default fd ctx hangs s = (hangs, s)

  abbrev set_default_action : ℕ → TableContext → TableEntry → Option Action → Exec W (Unit {0})
  set_default_action fd ctx entry none s = (err enodata, s)
  set_default_action fd ctx entry (some action) s =
      set_default fd ctx (value_buffer ctx.default_entry.value_size ctx entry action) s

  abbrev set_default_open : TableContext → TableEntry → Option ℕ → Exec W (Unit {0})
  set_default_open ctx entry none s = (err ebadf, s)
  set_default_open ctx entry (some fd) s =
      if not (ctx.default_entry.key_size == 4)
        || ctx.default_entry.value_size == 0
        || not (ctx.default_entry.value_size == ctx.table.value_size)
      then (err enotsup, s)
      else set_default_action fd ctx entry entry.action s

  unfoldable pub set_default_entry : TableContext → TableEntry → Exec W (Unit {0})
  set_default_entry ctx entry s = set_default_open ctx entry ctx.default_entry.fd s
