-- ===== src/ValueSet/Context.antt =====
-- lib/nikss_value_set.c: the context of a value set.
use Prim.Native.String.{String, ◌++◌}
use nikss.Base.{ℕ, Bool, true, false, Option, none, ◌==◌, if◌then◌else◌}
use nikss.Bpf.Types.{Result, ok, err, hangs, FileCalls, MapDescriptor, closed_descriptor, enoent}
use nikss.Bpf.Exec.{Proc, close_fds}
use nikss.Bpf.Open.{open_bpf_map}
use nikss.Struct.Buffer.{Bytes}
use nikss.Table.Types.{TableContext, KeyType}
use nikss.Table.Opening.{table_entry_ctx_init, table_entry_ctx_free, open_ternary_table}

-- `nikss_value_set_context_t`, with the type of the key for its BTF
pub record ValueSetContext : Type 0 where
  pub set_map : MapDescriptor
  pub prefixes : MapDescriptor
  pub tuple_map : MapDescriptor
  pub cache : MapDescriptor
  pub key_type : Option KeyType
  pub is_ternary_match : Bool
  pub current_raw_key : Option Bytes
  pub current_raw_key_mask : Option Bytes

abbrev pub value_set_context_init : ValueSetContext
value_set_context_init = record {
  set_map = closed_descriptor;
  prefixes = closed_descriptor;
  tuple_map = closed_descriptor;
  cache = closed_descriptor;
  key_type = none;
  is_ternary_match = false;
  current_raw_key = none;
  current_raw_key_mask = none;
}

abbrev closed : MapDescriptor → MapDescriptor
closed md = record md { fd = none }

unfoldable pub value_set_context_free :
    {W : Type 0} → ValueSetContext → Proc W → ValueSetContext × Proc W
value_set_context_free ctx s = (
  record ctx {
    set_map = closed ctx.set_map;
    prefixes = closed ctx.prefixes;
    tuple_map = closed ctx.tuple_map;
    cache = closed ctx.cache;
    key_type = none;
    current_raw_key = none;
    current_raw_key_mask = none;
  },
  close_fds ctx.cache.fd
      (close_fds ctx.tuple_map.fd (close_fds ctx.prefixes.fd (close_fds ctx.set_map.fd s))),
)

module _ {W : Type 0} (files : FileCalls W) (pipeline_id : ℕ) (name : String) where
  abbrev pub Opened : Type 0
  Opened = Result (Unit {0}) × ValueSetContext × Proc W

  -- The cache is optional.
  abbrev pub open_cache : ValueSetContext → Proc W → Opened
  open_cache ctx s =
      let (r, md, s') = open_bpf_map files pipeline_id (name ++ "_cache") ctx.cache s in
      (ok tt, record ctx { cache = md }, s')

  -- The maps of prefixes and of tuples are taken from the table's context, and no other part.
  abbrev pub take_ternary : ValueSetContext → Result (Unit {0}) × TableContext × Proc W → Opened
  take_ternary ctx (ok u, table, s) =
      let kept = record table {
        prefixes = closed table.prefixes;
        tuple_map = closed table.tuple_map;
      } in
      open_cache
        (record ctx {
          is_ternary_match = true;
          prefixes = table.prefixes;
          tuple_map = table.tuple_map;
        })
        (table_entry_ctx_free kept s).1
  take_ternary ctx (err e, table, s) = (err e, ctx, (table_entry_ctx_free table s).1)
  take_ternary ctx (hangs, table, s) = (hangs, ctx, s)

  -- An error other than ENOENT is not looked at.
  unfoldable pub value_set_context_name : ValueSetContext → Proc W → Opened
  unfolding table_entry_ctx_free
  value_set_context_name ctx s =
      let (r, md, s') = open_bpf_map files pipeline_id name ctx.set_map s in
      let ctx' = record ctx { set_map = md } in
      elim r [
        | ok u ↦ open_cache ctx' s'
        | err e ↦
            if e == enoent
            then take_ternary ctx'
                (open_ternary_table files pipeline_id name table_entry_ctx_init s')
            else open_cache ctx' s'
        | hangs ↦ (hangs, ctx', s')
      ]
