-- ===== src/Table/Tuples.antt =====
-- lib/nikss_table.c: the tuples of a ternary table. A tuple is a map with the entries of one mask;
-- the context holds its descriptor while a function works on it.
use nikss.Base.{
  ℕ, Bool, true, false, not, ◌||◌, ◌&&◌, ◌+◌, Option, none, some, [], ◌∷◌, ◌==◌, if◌then◌else◌,
  replicate,
}
use nikss.Bpf.Types.{
  Result, ok, err, hangs, einval, enoent, enodata, UpdateFlag, any, noexist, exist, MapDescriptor,
  MapInfo,
}
use nikss.Bpf.Exec.{Proc, Exec, close_fds}
use nikss.Struct.Buffer.{Bytes}
use nikss.Table.Types.{TableContext, TableCalls, TableEntry}
use nikss.Table.Write.{construct_buffer}
use nikss.Table.Masks.{fill_key_mask_btf, fill_key_mask_byte_by_byte}
use nikss.Table.Prefixes.{
  get_ternary_table_prefix_md, tuple_id, add_ternary_table_prefix, ternary_table_remove_prefix,
}
use nikss.Table.Clear.{delete_all_map_entries}

abbrev pub with_fd : Option ℕ → TableContext → TableContext
with_fd fd ctx = record ctx { table = record ctx.table { fd = fd } }

abbrev pub is_open : Option ℕ → Bool
is_open none = false
is_open (some fd) = true

-- a result, the context and the process
abbrev pub Tuple : Type 0 → Type 0 → Type 0
Tuple W A = Result A × TableContext × Proc W

abbrev pub is_exist : UpdateFlag → Bool
is_exist exist = true
is_exist any = false
is_exist noexist = false

abbrev pub all_zero : Bytes → Bool
all_zero [] = true
all_zero (b ∷ bs) = b == 0 && all_zero bs

-- The map that is made for a tuple, less the types of its BTF.
abbrev pub tuple_info : MapDescriptor → MapInfo
tuple_info map = record {
  type = map.type;
  key_size = map.key_size;
  value_size = map.value_size;
  max_entries = map.max_entries;
}

module _ {W : Type 0} (calls : TableCalls W) where
  abbrev pub register_tuple : ℕ → Result W → TableContext → Proc W → Tuple W (Unit {0})
  register_tuple fd (ok w) ctx s =
      (ok tt, with_fd (some fd) ctx, record s { world = w; open_fds = s.open_fds + 1 })
  register_tuple fd (err e) ctx s = (err e, with_fd none ctx, s)
  register_tuple fd hangs ctx s = (hangs, with_fd none ctx, s)

  -- A map that cannot be registered is closed again; what `create_map` has made stays in the
  -- kernel's state.
  abbrev pub add_created : ℕ → ℕ → Result (ℕ × W) → TableContext → Proc W → Tuple W (Unit {0})
  add_created tuple_fd id (ok (fd, w)) ctx s =
      register_tuple fd (calls.tuples.update w tuple_fd id fd any) ctx (record s { world = w })
  add_created tuple_fd id (err e) ctx s = (err e, with_fd none ctx, s)
  add_created tuple_fd id hangs ctx s = (hangs, with_fd none ctx, s)

  unfoldable pub ternary_table_add_tuple_and_open :
      ℕ → ℕ → TableContext → Proc W → Tuple W (Unit {0})
  ternary_table_add_tuple_and_open tuple_fd id ctx s =
      add_created tuple_fd id (calls.create_map s.world (tuple_info ctx.table)) ctx s

  -- A tuple that cannot be opened leaves the table closed, without an error.
  abbrev pub opened_by_id : Result ℕ → TableContext → Proc W → Tuple W (Unit {0})
  opened_by_id (ok fd) ctx s =
      (ok tt, with_fd (some fd) ctx, record s { open_fds = s.open_fds + 1 })
  opened_by_id (err e) ctx s = (ok tt, with_fd none ctx, s)
  opened_by_id hangs ctx s = (hangs, with_fd none ctx, s)

  abbrev pub open_known : ℕ → ℕ → UpdateFlag → Result ℕ → TableContext → Proc W → Tuple W (Unit {0})
  open_known tuple_fd id flag (ok inner) ctx s = opened_by_id (calls.map_get_fd s.world inner) ctx s
  open_known tuple_fd id flag (err e) ctx s =
      if is_exist flag
      then (err enoent, ctx, s)
      else ternary_table_add_tuple_and_open tuple_fd id ctx s
  open_known tuple_fd id flag hangs ctx s = (hangs, ctx, s)

  -- The value of the prefix, which is added where it is missing.
  abbrev pub prefix_value :
      ℕ → ℕ → UpdateFlag → Bytes → Result Bytes → TableContext → W → Result Bytes × W
  prefix_value fuel fd flag mask (ok value) ctx w = (ok value, w)
  prefix_value fuel fd flag mask (err e) ctx w =
      if is_exist flag
      then (err enoent, w)
      else add_ternary_table_prefix calls.prefix_list (get_ternary_table_prefix_md ctx) fd fuel
          ctx.prefixes.key_size ctx.prefixes.value_size mask w
  prefix_value fuel fd flag mask hangs ctx w = (hangs, w)

  abbrev pub open_prefix :
      ℕ → UpdateFlag → Result Bytes → TableContext → Proc W → Tuple W (Unit {0})
  open_prefix tuple_fd flag (ok value) ctx s =
      let id = tuple_id (get_ternary_table_prefix_md ctx) value in
      open_known tuple_fd id flag (calls.tuples.lookup s.world tuple_fd id) ctx s
  open_prefix tuple_fd flag (err e) ctx s = (err e, ctx, s)
  open_prefix tuple_fd flag hangs ctx s = (hangs, ctx, s)

  abbrev pub with_mask : Bytes → Tuple W (Unit {0}) → Tuple W Bytes
  with_mask mask (ok u, ctx, s) = (ok mask, ctx, s)
  with_mask mask (err e, ctx, s) = (err e, ctx, s)
  with_mask mask (hangs, ctx, s) = (hangs, ctx, s)

  abbrev pub open_masked :
      ℕ → ℕ → ℕ → UpdateFlag → Result Bytes → TableContext → Proc W → Tuple W Bytes
  open_masked fuel fd tuple_fd flag (ok mask) ctx s =
      let (value, w) =
        prefix_value fuel fd flag mask (calls.prefix_list.lookup s.world fd mask) ctx s.world in
      if all_zero mask
      then (err einval, ctx, s)
      else with_mask mask (open_prefix tuple_fd flag value ctx (record s { world = w }))
  open_masked fuel fd tuple_fd flag (err e) ctx s = (err e, ctx, s)
  open_masked fuel fd tuple_fd flag hangs ctx s = (hangs, ctx, s)

  abbrev pub key_mask : TableContext → TableEntry → Result Bytes
  key_mask ctx entry =
      construct_buffer ctx.prefixes.key_size ctx (fill_key_mask_btf ctx entry)
        (fill_key_mask_byte_by_byte ctx entry)

  abbrev pub open_maps :
      ℕ
      → Option ℕ
      → Option ℕ
      → Option ℕ
      → TableEntry
      → UpdateFlag
      → TableContext
      → Proc W
      → Tuple W Bytes
  open_maps fuel none tuple_fd fd entry flag ctx s = (err einval, ctx, s)
  open_maps fuel (some p) none fd entry flag ctx s = (err einval, ctx, s)
  open_maps fuel (some p) (some t) (some fd) entry flag ctx s = (err einval, ctx, s)
  open_maps fuel (some p) (some t) none entry flag ctx s =
      if not (ctx.table.key_size == ctx.prefixes.key_size)
      then (err einval, ctx, s)
      else if not (ctx.tuple_map.key_size == 4) || not (ctx.tuple_map.value_size == 4)
      then (err einval, ctx, s)
      else open_masked fuel p t flag (key_mask ctx entry) ctx s

  -- The result is the mask of the entry's key. Where the function fails the table is closed or the
  -- mask has not been made.
  unfoldable pub ternary_table_open_tuple :
      ℕ → TableEntry → UpdateFlag → TableContext → Proc W → Tuple W Bytes
  ternary_table_open_tuple fuel entry flag ctx s =
      open_maps fuel ctx.prefixes.fd ctx.tuple_map.fd ctx.table.fd entry flag ctx s

  abbrev pub close_table : TableContext → Proc W → TableContext × Proc W
  close_table ctx s = (with_fd none ctx, close_fds ctx.table.fd s)

  unfoldable pub ternary_table_close_tuple : TableContext → Proc W → TableContext × Proc W
  ternary_table_close_tuple ctx s = if ctx.is_ternary then close_table ctx s else (ctx, s)

  abbrev pub mask_of : Tuple W Bytes → Tuple W (Option Bytes)
  mask_of (ok mask, ctx, s) = (ok (some mask), ctx, s)
  mask_of (err e, ctx, s) = (err e, ctx, s)
  mask_of (hangs, ctx, s) = (hangs, ctx, s)

  abbrev unless_hangs : Result (Unit {0}) → Result (Option Bytes)
  unless_hangs (ok u) = ok none
  unless_hangs (err e) = ok none
  unless_hangs hangs = hangs

  abbrev clear_prefixes : ℕ → TableContext → Exec W (Unit {0})
  clear_prefixes fuel ctx =
      delete_all_map_entries calls.prefix_list (replicate ctx.prefixes.value_size 0) fuel
        ctx.prefixes

  abbrev clear_tuples : ℕ → TableContext → Exec W (Unit {0})
  clear_tuples fuel ctx = delete_all_map_entries calls.tuples 0 fuel ctx.tuple_map

  abbrev pub clear_both : ℕ → TableContext → Proc W → Tuple W (Option Bytes)
  clear_both fuel ctx s =
      let (r, s') = clear_prefixes fuel ctx s in
      let (r', s'') = clear_tuples fuel ctx s' in
      elim r [
        | hangs ↦ (hangs, ctx, s')
        | ok u ↦ (unless_hangs r', ctx, s'')
        | err e ↦ (unless_hangs r', ctx, s'')
      ]

  -- Without keys all prefixes and tuples are deleted.
  unfoldable pub prepare_ternary_table_delete :
      ℕ → TableEntry → TableContext → Proc W → Tuple W (Option Bytes)
  prepare_ternary_table_delete fuel entry ctx s = elim entry.match_keys [
    | [] ↦ clear_both fuel ctx s
    | k ∷ ks ↦ mask_of (ternary_table_open_tuple fuel entry exist ctx s)
  ]

  abbrev drop_prefix : ℕ → Option ℕ → Option ℕ → Bytes → TableContext → W → Result (Unit {0}) × W
  drop_prefix fuel (some fd) (some tuple_fd) mask ctx w =
      ternary_table_remove_prefix calls.prefix_list (get_ternary_table_prefix_md ctx) fd
        calls.tuples tuple_fd fuel ctx.prefixes.key_size mask w
  drop_prefix fuel none tuple_fd mask ctx w = (err einval, w)
  drop_prefix fuel (some fd) none mask ctx w = (err einval, w)

  -- a tuple without a first key is empty
  abbrev drop_empty : ℕ → Result Bytes → Bytes → TableContext → W → Result (Unit {0}) × W
  drop_empty fuel (ok key) mask ctx w = (ok tt, w)
  drop_empty fuel (err e) mask ctx w = drop_prefix fuel ctx.prefixes.fd ctx.tuple_map.fd mask ctx w
  drop_empty fuel hangs mask ctx w = (hangs, w)

  abbrev pub post_open : ℕ → Option Bytes → ℕ → TableContext → Proc W → Tuple W (Unit {0})
  post_open fuel none fd ctx s = (err enodata, ctx, s)
  post_open fuel (some mask) fd ctx s =
      let (r, w) = drop_empty fuel (calls.entries.next_key s.world fd none) mask ctx s.world in
      let (ctx', s') = close_table ctx (record s { world = w }) in (r, ctx', s')

  abbrev pub post_if_open : ℕ → Option Bytes → Option ℕ → TableContext → Proc W → Tuple W (Unit {0})
  post_if_open fuel mask none ctx s = (ok tt, ctx, s)
  post_if_open fuel mask (some fd) ctx s = post_open fuel mask fd ctx s

  -- Where a tuple is open so are the prefixes and the map of tuples.
  unfoldable pub post_ternary_table_delete :
      ℕ → Option Bytes → TableContext → Proc W → Tuple W (Unit {0})
  post_ternary_table_delete fuel mask ctx s =
      if ctx.is_ternary then post_if_open fuel mask ctx.table.fd ctx s else (ok tt, ctx, s)
