-- ===== src/Table/Iterate.antt =====
-- lib/nikss_table.c: the iteration over the entries of a table. The context keeps the key that it
-- has come to, and in a ternary table also the mask and the open tuple.
use nikss.Base.{
  ℕ, zero, suc, ◌+◌, Bool, false, ◌||◌, Option, none, some, ◌==◌, if◌then◌else◌, replicate,
}
use nikss.Bpf.Types.{Result, ok, err, hangs, is_ok, MapCalls, ebadf, enoent, enodata}
use nikss.Bpf.Exec.{Proc}
use nikss.Struct.Buffer.{Bytes}
use nikss.Struct.Slices.{slice}
use nikss.Table.Types.{TableContext, TableCalls, TableEntry}
use nikss.Table.MatchKey.{table_entry_init}
use nikss.Table.Prefixes.{get_ternary_table_prefix_md, tuple_id, has_next}
use nikss.Table.Tuples.{Tuple, with_fd, ternary_table_close_tuple}
use nikss.Table.ReadKey.{parse_table_key, Filled}
use nikss.Table.Get.{parse_table_value}

-- A round of the loop ends it, or goes on with another mask.
pub data Round (W : Type 0) : Type 0 where
  done : Result (Unit {0}) → TableContext → Proc W → Round W
  more : Bytes → TableContext → Proc W → Round W

-- a lookup, which fails on a closed map
abbrev lookup_in : {W K V : Type 0} → MapCalls W K V → Option ℕ → K → W → Result V
lookup_in calls none k w = err ebadf
lookup_in calls (some fd) k w = calls.lookup w fd k

module _ {W : Type 0} (calls : TableCalls W) where
  abbrev has_next_key : Option ℕ → Option Bytes → W → Bool
  has_next_key none key w = false
  has_next_key (some fd) key w = is_ok (calls.entries.next_key w fd key)

  abbrev with_mask : Option Bytes → TableContext → TableContext
  with_mask mask ctx = record ctx { current_raw_key_mask = mask }

  abbrev reopen : Bytes → Result ℕ → TableContext → Proc W → Round W
  reopen mask (ok fd) ctx s =
      more mask (with_fd (some fd) ctx) (record s { open_fds = s.open_fds + 1 })
  reopen mask (err e) ctx s = more mask (with_fd none ctx) s
  reopen mask hangs ctx s = done hangs ctx s

  abbrev open_next : Bytes → Result ℕ → TableContext → Proc W → Round W
  open_next mask (ok inner) ctx s = reopen mask (calls.map_get_fd s.world inner) ctx s
  open_next mask (err e) ctx s = done (err enoent) (with_mask none ctx) s
  open_next mask hangs ctx s = done hangs ctx s

  abbrev to_next : Bytes → Result Bytes → TableContext → Proc W → Round W
  to_next mask (ok value) ctx s =
      let id = tuple_id (get_ternary_table_prefix_md ctx) value in
      open_next mask (lookup_in calls.tuples ctx.tuple_map.fd id s.world) ctx s
  to_next mask (err e) ctx s = done (err enoent) (with_mask none ctx) s
  to_next mask hangs ctx s = done hangs ctx s

  abbrev leave_tuple : Bytes → Bytes → TableContext → Proc W → Round W
  leave_tuple mask value ctx s =
      let md = get_ternary_table_prefix_md ctx in
      let next = slice md.next_mask_offset ctx.prefixes.key_size value in
      let (ctx', s') = ternary_table_close_tuple calls (record ctx { current_raw_key = none }) s in
      if has_next md value == 0
      then done (ok tt) (with_mask (some mask) ctx) s
      else to_next next (lookup_in calls.prefix_list ctx'.prefixes.fd next s'.world) ctx' s'

  abbrev from_prefix : Bytes → Result Bytes → TableContext → Proc W → Round W
  from_prefix mask (ok value) ctx s = leave_tuple mask value ctx s
  from_prefix mask (err e) ctx s = done (err enoent) (with_mask none ctx) s
  from_prefix mask hangs ctx s = done hangs ctx s

  abbrev round : Bytes → TableContext → Proc W → Round W
  round mask ctx s =
      if has_next_key ctx.table.fd ctx.current_raw_key s.world
      then done (ok tt) (with_mask (some mask) ctx) s
      else from_prefix mask (lookup_in calls.prefix_list ctx.prefixes.fd mask s.world) ctx s

  -- The `for` loop.
  unfoldable pub walk_tuples : ℕ → Bytes → TableContext → Proc W → Tuple W (Unit {0})
  walk_tuples zero mask ctx s = (ok tt, with_mask (some mask) ctx, s)
  walk_tuples (suc i) mask ctx s = elim (round mask ctx s) [
    | done r ctx' s' ↦ (r, ctx', s')
    | more mask' ctx' s' ↦ walk_tuples i mask' ctx' s'
  ]

  abbrev current_mask : TableContext → Bytes
  current_mask ctx = elim ctx.current_raw_key_mask [
    | none ↦ replicate ctx.prefixes.key_size 0
    | some mask ↦ mask
  ]

  unfoldable pub get_next_ternary_table_key_mask : TableContext → Proc W → Tuple W (Unit {0})
  get_next_ternary_table_key_mask ctx s =
      walk_tuples ctx.prefixes.max_entries (current_mask ctx) ctx s

  -- the end of the iteration, from which it starts again
  abbrev restart : TableContext → Proc W → Tuple W (Unit {0})
  restart ctx s =
      let (ctx', s') = ternary_table_close_tuple calls ctx s in
      (err enodata, record ctx' { current_raw_key = none; current_raw_key_mask = none }, s')

  abbrev step_to : Result Bytes → TableContext → Proc W → Tuple W (Unit {0})
  step_to (ok key) ctx s = (ok tt, record ctx { current_raw_key = some key }, s)
  step_to (err e) ctx s = restart ctx s
  step_to hangs ctx s = (hangs, ctx, s)

  abbrev step_in : Option ℕ → TableContext → Proc W → Tuple W (Unit {0})
  step_in none ctx s = (err enodata, ctx, s)
  step_in (some fd) ctx s =
      if ctx.table.key_size == 0 || ctx.table.value_size == 0
      then (err enodata, ctx, s)
      else step_to (calls.entries.next_key s.world fd ctx.current_raw_key) ctx s

  -- An error in a ternary table of which no tuple is open is no error.
  abbrev ignored : Option ℕ → Result (Unit {0})
  ignored none = ok tt
  ignored (some fd) = err enodata

  abbrev step_after : Tuple W (Unit {0}) → Tuple W (Unit {0})
  step_after (ok u, ctx, s) = step_in ctx.table.fd ctx s
  step_after (err e, ctx, s) = (ignored ctx.table.fd, ctx, s)
  step_after (hangs, ctx, s) = (hangs, ctx, s)

  unfoldable pub table_entry_goto_next_key : TableContext → Proc W → Tuple W (Unit {0})
  table_entry_goto_next_key ctx s =
      if ctx.is_ternary
      then step_after (get_next_ternary_table_key_mask ctx s)
      else step_in ctx.table.fd ctx s

  abbrev value_of : TableContext → Filled → Result Bytes → Option TableEntry
  value_of ctx (ok u, entry) value = elim (parse_table_value ctx entry.match_keys value) [
    | ok e ↦ some e
    | err n ↦ none
    | hangs ↦ none
  ]
  value_of ctx (err e, entry) value = none
  value_of ctx (hangs, entry) value = none

  abbrev read_at : Option Bytes → TableContext → W → Option TableEntry
  read_at none ctx w = none
  read_at (some key) ctx w =
      value_of ctx (parse_table_key ctx table_entry_init (some key) ctx.current_raw_key_mask)
        (lookup_in calls.entries ctx.table.fd key w)

  abbrev read_after : Tuple W (Unit {0}) → Option TableEntry × TableContext × Proc W
  read_after (ok u, ctx, s) = (read_at ctx.current_raw_key ctx s.world, ctx, s)
  read_after (err e, ctx, s) = (none, ctx, s)
  read_after (hangs, ctx, s) = (none, ctx, s)

  unfoldable pub table_entry_get_next :
      TableContext → Proc W → Option TableEntry × TableContext × Proc W
  table_entry_get_next ctx s = read_after (table_entry_goto_next_key ctx s)
