-- ===== src/Table/Get.antt =====
-- lib/nikss_table.c: reading an entry of a table, and its default entry. The entry of a call that
-- fails is not given.
use nikss.Base.{ℕ, not, ◌||◌, Option, none, some, List, [], ◌∷◌, ◌==◌, if◌then◌else◌}
use nikss.Bpf.Types.{Result, ok, err, hangs, ebadf, einval, enodata, exist}
use nikss.Bpf.Exec.{Proc}
use nikss.Struct.Buffer.{Bytes}
use nikss.Table.Types.{TableContext, TableCalls, TableEntry, MatchKey}
use nikss.Table.MatchKey.{table_entry_init}
use nikss.Table.Values.{Parsed, parse_table_value_no_btf}
use nikss.Table.Tuples.{Tuple, ternary_table_close_tuple}
use nikss.Table.Entry.{key_buffer, masked_key, open_tuple}

-- what a value says, in an entry with these keys
abbrev pub entry_of : List MatchKey → Parsed → Result TableEntry
entry_of keys (ok (id, priority, params)) = ok (record table_entry_init {
  match_keys = keys;
  action = some (record { action_id = id; params = params });
  priority = priority;
})
entry_of keys (err e) = err e
entry_of keys hangs = hangs

-- `parse_table_value`, where the type of the value is not known
abbrev pub parse_table_value : TableContext → List MatchKey → Result Bytes → Result TableEntry
parse_table_value ctx keys (ok value) = entry_of keys (parse_table_value_no_btf ctx value)
parse_table_value ctx keys (err e) = err e
parse_table_value ctx keys hangs = hangs

module _ {W : Type 0} (calls : TableCalls W) (fuel : ℕ) where
  abbrev pub read_key :
      TableContext → Option Bytes → TableEntry → ℕ → Result Bytes → W → Result TableEntry
  read_key ctx mask entry fd (ok key) w =
      parse_table_value ctx entry.match_keys (calls.entries.lookup w fd (masked_key ctx mask key))
  read_key ctx mask entry fd (err e) w = err e
  read_key ctx mask entry fd hangs w = hangs

  abbrev pub read_open : TableContext → Option Bytes → TableEntry → Option ℕ → W → Result TableEntry
  read_open ctx mask entry none w = err ebadf
  read_open ctx mask entry (some fd) w =
      if ctx.table.key_size == 0 || ctx.table.value_size == 0
      then err einval
      else read_key ctx mask entry fd (key_buffer ctx entry) w

  abbrev pub close_read : Result TableEntry → TableContext → Proc W → Tuple W TableEntry
  close_read r ctx s = let (ctx', s') = ternary_table_close_tuple calls ctx s in (r, ctx', s')

  abbrev pub read_tuple : TableEntry → Tuple W (Option Bytes) → Tuple W TableEntry
  read_tuple entry (ok mask, ctx, s) =
      close_read (read_open ctx mask entry ctx.table.fd s.world) ctx s
  read_tuple entry (err e, ctx, s) = close_read (err e) ctx s
  read_tuple entry (hangs, ctx, s) = (hangs, ctx, s)

  unfoldable pub table_entry_get : TableEntry → TableContext → Proc W → Tuple W TableEntry
  table_entry_get entry ctx s = elim entry.match_keys [
    | [] ↦ (err enodata, ctx, s)
    | k ∷ ks ↦ read_tuple entry (open_tuple calls fuel entry exist ctx s)
  ]

  abbrev read_default : TableContext → Option ℕ → W → Result TableEntry
  read_default ctx none w = err ebadf
  read_default ctx (some fd) w =
      if ctx.default_entry.value_size == 0
        || not (ctx.default_entry.value_size == ctx.table.value_size)
      then err einval
      else parse_table_value ctx [] (calls.defaults.lookup w fd 0)

  unfoldable pub get_default_entry : TableContext → W → Result TableEntry
  get_default_entry ctx w = read_default ctx ctx.default_entry.fd w
