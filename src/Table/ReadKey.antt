-- ===== src/Table/ReadKey.antt =====
-- lib/nikss_table.c: the match keys that the key of a map stands for. A null pointer is `none`.
use nikss.Base.{
  ℕ, suc, ◌+◌, ◌-◌, ◌*◌, ◌/◌, ◌%◌, ◌^◌, Bool, true, ◌||◌, ◌&&◌, Option, none, some, List, [], ◌∷◌,
  ltb, ◌==◌, if◌then◌else◌, length,
}
use nikss.Bpf.Types.{Result, ok, err, hangs, einval, enodata}
use nikss.Struct.Buffer.{Bytes, swap_byte_order}
use nikss.Struct.Slices.{slice}
use nikss.Counter.Value.{of_bytes, first, behind}
use nikss.Table.Types.{
  MatchKind, MatchKey, KeyMember, KeyType, int_type, struct_type, other_type, TableContext,
  TableEntry, is_lpm,
}
use nikss.Table.MatchKey.{
  matchkey_init, matchkey_type, matchkey_data, matchkey_prefix_len, matchkey_mask,
  table_entry_matchkey,
}
use nikss.Table.Keys.{given, is_lpm_trie, is_table_dummy_key}

abbrev pub Filled : Type 0
Filled = Result (Unit {0}) × TableEntry

abbrev exact_from : Option Bytes → MatchKey
exact_from key = (matchkey_data matchkey_init key).1

abbrev ternary_from : Option Bytes → Option Bytes → MatchKey
ternary_from key mask =
    (matchkey_mask (matchkey_data (matchkey_type matchkey_init MatchKind.ternary) key).1 mask).1

abbrev lpm_from : Option Bytes → ℕ → MatchKey
lpm_from key prefix =
    (matchkey_prefix_len (matchkey_data (matchkey_type matchkey_init MatchKind.lpm) key).1 prefix).1

-- A trie's key is not null.
unfoldable pub parse_table_key_no_btf :
    TableContext → TableEntry → Option Bytes → Option Bytes → Filled
parse_table_key_no_btf ctx entry key mask =
    let bytes = given key in
    let mk =
      if ctx.is_ternary
      then ternary_from key mask
      else if is_lpm_trie ctx.table.type
      then lpm_from (some (behind 4 bytes)) (of_bytes (first 4 bytes))
      else exact_from key in
    (ok tt, (table_entry_matchkey entry mk).1)

abbrev all_set : Bytes → Bool
all_set [] = true
all_set (b ∷ bs) = b == 255 && all_set bs

unfoldable pub decode_key_field_type_btf_info : TableContext → Bytes → ℕ → ℕ → MatchKind
decode_key_field_type_btf_info ctx field_mask type_fields field_id =
    if ctx.is_ternary
    then if all_set field_mask then MatchKind.exact else MatchKind.ternary
    else if is_lpm_trie ctx.table.type && field_id + 1 == type_fields
    then MatchKind.lpm
    else MatchKind.exact

abbrev field_key : MatchKind → Bytes → Bytes → ℕ → MatchKey
field_key MatchKind.ternary field mask prefix = ternary_from (some field) (some mask)
field_key MatchKind.lpm field mask prefix = lpm_from (some field) prefix
field_key MatchKind.exact field mask prefix = exact_from (some field)
field_key MatchKind.range field mask prefix = matchkey_init

abbrev swapped : ℕ → MatchKey → MatchKey
swapped len mk = record mk { bytes = some (swap_byte_order 0 len (given mk.bytes)) }

abbrev added : Result (Unit {0}) × TableEntry × MatchKey → Filled
added (r, entry, mk) = (r, entry)

-- Fields wider than 64 bits, and those with a prefix, are in network byte order.
unfoldable pub parse_table_key_add_key_field :
    TableEntry → MatchKind → Bytes → Bytes → ℕ → ℕ → Filled
parse_table_key_add_key_field entry type field mask prefix field_len =
    if ltb field_len 1
    then (err enodata, entry)
    else if ltb 8 field_len || is_lpm type
    then added (table_entry_matchkey entry (swapped field_len (field_key type field mask prefix)))
    else added (table_entry_matchkey entry (field_key type field mask prefix))

module _ (ctx : TableContext) (key mask : Bytes) (type_fields : ℕ) where
  abbrev member_prefix : ℕ → ℕ → ℕ
  member_prefix global offset = (global + 32 + (2 ^ 32 - (offset * 8) % 2 ^ 32)) % 2 ^ 32

  abbrev parse_member : ℕ → ℕ → KeyMember → TableEntry → Filled
  parse_member global idx m entry =
      let offset = m.bit_offset / 8 in
      let field_mask = slice offset m.type_size mask in
      parse_table_key_add_key_field entry
        (decode_key_field_type_btf_info ctx field_mask type_fields idx)
        (slice offset m.type_size key) field_mask (member_prefix global offset) m.type_size

  -- The loop from the member `idx` on.
  unfoldable pub parse_members : ℕ → ℕ → List KeyMember → TableEntry → Filled
  parse_members global idx [] entry = (ok tt, entry)
  parse_members global idx (m ∷ ms) entry =
      let (r, entry') = parse_member global idx m entry in
      let rest = parse_members global (idx + 1) ms entry' in
      elim r [ ok u ↦ rest | err e ↦ (err e, entry') | hangs ↦ (hangs, entry') ]

-- The first member of a trie's key is the length of the prefix.
abbrev parse_struct : TableContext → Bool → List KeyMember → Bytes → Bytes → TableEntry → Filled
parse_struct ctx named [] key mask entry = (ok tt, entry)
parse_struct ctx named (m ∷ ms) key mask entry =
    let n = suc (length ms) in
    if is_lpm_trie ctx.table.type
    then if is_table_dummy_key named (m ∷ ms)
      then (ok tt, entry)
      else parse_members ctx key mask n (of_bytes (first 4 key)) 1 ms entry
    else if is_table_dummy_key named (m ∷ ms)
    then (ok tt, entry)
    else parse_members ctx key mask n 0 0 (m ∷ ms) entry

abbrev parse_int : TableContext → Bytes → Bytes → TableEntry → Filled
parse_int ctx key mask entry =
    let type = decode_key_field_type_btf_info ctx (first ctx.table.key_size mask) 1 0 in
    if is_lpm type
    then parse_table_key_add_key_field entry type (first ctx.table.key_size (behind 4 key)) mask
        (of_bytes (first 4 key)) ctx.table.key_size
    else parse_table_key_add_key_field entry type key mask 0 ctx.table.key_size

unfoldable pub parse_table_key_btf_info :
    TableContext → KeyType → TableEntry → Bytes → Bytes → Filled
parse_table_key_btf_info ctx int_type entry key mask = parse_int ctx key mask entry
parse_table_key_btf_info ctx (struct_type named members) entry key mask =
    parse_struct ctx named members key mask entry
parse_table_key_btf_info ctx other_type entry key mask = (err einval, entry)

unfoldable pub parse_table_key : TableContext → TableEntry → Option Bytes → Option Bytes → Filled
parse_table_key ctx entry key mask = elim ctx.key_type [
  | none ↦ parse_table_key_no_btf ctx entry key mask
  | some type ↦ parse_table_key_btf_info ctx type entry (given key) (given mask)
]
