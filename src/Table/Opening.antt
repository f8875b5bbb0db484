-- ===== src/Table/Opening.antt =====
-- lib/nikss_table.c: the context of a table: its initial value, opening and closing its maps. There
-- is no BTF for the type of values, so that there are no direct objects to look for.
use Prim.Native.String.{String, ◌++◌}
use nikss.Base.{ℕ, true, false, none, ◌==◌, if◌then◌else◌}
use nikss.Bpf.Types.{Result, ok, err, hangs, FileCalls, MapDescriptor, closed_descriptor, enoent}
use nikss.Bpf.Exec.{Proc, close_fds}
use nikss.Bpf.Open.{open_bpf_map}
use nikss.Table.Types.{TableContext}

abbrev pub table_entry_ctx_init : TableContext
table_entry_ctx_init = record {
  table = closed_descriptor;
  default_entry = closed_descriptor;
  is_indirect = false;
  is_ternary = false;
  prefixes = closed_descriptor;
  tuple_map = closed_descriptor;
  cache = closed_descriptor;
  key_type = none;
  current_raw_key = none;
  current_raw_key_mask = none;
}

abbrev pub table_entry_ctx_mark_indirect : TableContext → TableContext
table_entry_ctx_mark_indirect ctx = record ctx { is_indirect = true }

abbrev closed : MapDescriptor → MapDescriptor
closed md = record md { fd = none }

-- The mask of an iteration is not freed.
unfoldable pub table_entry_ctx_free : {W : Type 0} → TableContext → Proc W → TableContext × Proc W
table_entry_ctx_free ctx s = (
  record ctx {
    table = closed ctx.table;
    default_entry = closed ctx.default_entry;
    prefixes = closed ctx.prefixes;
    tuple_map = closed ctx.tuple_map;
    cache = closed ctx.cache;
    key_type = none;
    current_raw_key = none;
  },
  close_fds ctx.cache.fd (
      close_fds ctx.tuple_map.fd
        (close_fds ctx.prefixes.fd (close_fds ctx.default_entry.fd (close_fds ctx.table.fd s)))),
)

module _ {W : Type 0} (files : FileCalls W) (pipeline_id : ℕ) (name : String) where
  abbrev pub Opened : Type 0
  Opened = Result (Unit {0}) × TableContext × Proc W

  -- Only the metadata of the map of a tuple is kept.
  abbrev open_tuple_info : TableContext → Proc W → Opened
  open_tuple_info ctx s =
      let (r, md, s') = open_bpf_map files pipeline_id (name ++ "_tuple") ctx.table s in
      let ctx' = record ctx { table = closed md } in
      let s'' = close_fds md.fd s' in
      elim r [
        | ok u ↦ (ok tt, record ctx' { is_ternary = true }, s'')
        | err e ↦ (err e, ctx', s'')
        | hangs ↦ (hangs, ctx', s'')
      ]

  abbrev open_tuples_map : TableContext → Proc W → Opened
  open_tuples_map ctx s =
      let (r, md, s') = open_bpf_map files pipeline_id (name ++ "_tuples_map") ctx.tuple_map s in
      let ctx' = record ctx { tuple_map = md } in
      elim r [
        | ok u ↦ open_tuple_info ctx' s'
        | err e ↦ (err e, ctx', s')
        | hangs ↦ (hangs, ctx', s')
      ]

  unfoldable pub open_ternary_table : TableContext → Proc W → Opened
  open_ternary_table ctx s =
      let (r, md, s') = open_bpf_map files pipeline_id (name ++ "_prefixes") ctx.prefixes s in
      let ctx' = record ctx { prefixes = md } in
      elim r [
        | ok u ↦ open_tuples_map ctx' s'
        | err e ↦ (err e, ctx', s')
        | hangs ↦ (hangs, ctx', s')
      ]

  -- The default entry and the cache are optional.
  abbrev open_optional : TableContext → Proc W → Opened
  open_optional ctx s =
      let (r, md, s') =
        open_bpf_map files pipeline_id (name ++ "_defaultAction") ctx.default_entry s in
      let (r', md', s'') = open_bpf_map files pipeline_id (name ++ "_cache") ctx.cache s' in
      (ok tt, record ctx { default_entry = md; cache = md' }, s'')

  abbrev open_rest : Opened → Opened
  open_rest (ok u, ctx, s) = open_optional ctx s
  open_rest (err e, ctx, s) = (err e, ctx, s)
  open_rest (hangs, ctx, s) = (hangs, ctx, s)

  -- A map that does not exist may be a ternary table.
  unfoldable pub table_entry_ctx_tblname : TableContext → Proc W → Opened
  table_entry_ctx_tblname ctx s =
      let (r, md, s') = open_bpf_map files pipeline_id name ctx.table s in
      let ctx' = record ctx { table = md } in
      elim r [
        | ok u ↦ open_optional ctx' s'
        | err e ↦ if e == enoent then open_rest (open_ternary_table ctx' s') else (err e, ctx', s')
        | hangs ↦ (hangs, ctx', s')
      ]
