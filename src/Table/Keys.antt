-- ===== src/Table/Keys.antt =====
-- lib/nikss_table.c: the key of an entry as bytes. The keys of an entry have data.
use nikss.Base.{
  ℕ, ◌+◌, ◌-◌, ◌*◌, ◌/◌, ◌%◌, ◌^◌, Bool, true, false, not, ◌&&◌, Option, none, some, List, [], ◌∷◌,
  length, ltb, ◌==◌, if◌then◌else◌,
}
use nikss.Bpf.Types.{Result, ok, err, hangs, MapType, eperm, einval, eagain}
use nikss.Struct.Buffer.{Bytes}
use nikss.Struct.Fields.{copy_at}
use nikss.Counter.Value.{to_bytes}
use nikss.Table.Types.{
  MatchKey, KeyMember, KeyType, int_type, struct_type, other_type, TableEntry, TableContext, is_lpm,
  is_ternary_kind,
}
use nikss.Table.Write.{write_host_order, write_network_order, write_buffer_btf, reversed}

abbrev pub given : Option Bytes → Bytes
given none = []
given (some bytes) = bytes

abbrev pub key_size : MatchKey → ℕ
key_size mk = length (given mk.bytes)

abbrev pub is_lpm_trie : MapType → Bool
is_lpm_trie MapType.lpm_trie = true
is_lpm_trie MapType.hash = false
is_lpm_trie MapType.array = false
is_lpm_trie MapType.queue = false
is_lpm_trie MapType.array_of_maps = false
is_lpm_trie MapType.hash_of_maps = false
is_lpm_trie MapType.other = false

-- an LPM trie takes the field with the prefix in network byte order
abbrev pub key_bytes : Bool → MatchKey → Bytes
key_bytes as_trie mk =
    if as_trie && is_lpm mk.type then reversed (given mk.bytes) [] else given mk.bytes

-- the length of the prefix, in the first four bytes of the key
abbrev pub write_prefix_len : Bool → MatchKey → ℕ → Bytes → Bytes
write_prefix_len as_trie mk offset buffer =
    let prefix_len = if is_lpm mk.type then mk.prefix_len else key_size mk * 8 in
    if as_trie then copy_at 0 (to_bytes 4 ((offset - 4) * 8 + prefix_len)) buffer else buffer

-- The `for` loop, with the offset of `buffer` and `bytes_to_write`.
unfoldable pub fill_keys : Bool → List MatchKey → ℕ → ℕ → Bytes → Result Bytes
fill_keys as_trie [] offset bytes_to_write buffer =
    if ltb 0 bytes_to_write then err eperm else ok buffer
fill_keys as_trie (mk ∷ mks) offset bytes_to_write buffer =
    let copied = copy_at offset (key_bytes as_trie mk) buffer in
    let rest =
      fill_keys as_trie mks (offset + key_size mk) (bytes_to_write - key_size mk)
        (write_prefix_len as_trie mk offset copied) in
    if ltb bytes_to_write (key_size mk)
    then err eperm
    else if as_trie && is_ternary_kind mk.type
    then err einval
    else rest

unfoldable pub fill_key_byte_by_byte : TableContext → TableEntry → Bytes → Result Bytes
unfolding fill_keys
fill_key_byte_by_byte ctx entry buffer =
    if not (is_lpm_trie ctx.table.type)
    then fill_keys false entry.match_keys 0 ctx.table.key_size buffer
    else if ltb ctx.table.key_size 4
    then err eperm
    else fill_keys true entry.match_keys 4 (ctx.table.key_size - 4) buffer

-- `is_table_dummy_key`
abbrev pub is_table_dummy_key : Bool → List KeyMember → Bool
is_table_dummy_key named members = length members == 1 && named

abbrev pub then_fill : Result Bytes → (Bytes → Result Bytes) → Result Bytes
then_fill (ok buffer) f = f buffer
then_fill (err e) f = err e
then_fill hangs f = hangs

-- in a uint32_t
abbrev pub prefix_value : ℕ → MatchKey → ℕ → ℕ
prefix_value size mk offset =
    if is_lpm mk.type
    then (offset * 8 + mk.prefix_len + (2 ^ 32 - 32)) % 2 ^ 32
    else (size * 8 + (2 ^ 32 - 32)) % 2 ^ 32

module _ (size : ℕ) (as_trie : Bool) (prefix : KeyMember) where
  abbrev fill_prefix : MatchKey → ℕ → Bytes → Result Bytes
  fill_prefix mk offset buffer =
      if not as_trie
      then ok buffer
      else if is_ternary_kind mk.type
      then err einval
      else write_buffer_btf size (prefix.bit_offset / 8) (to_bytes 4 (prefix_value size mk offset))
          prefix.type_size write_host_order buffer

  -- There are as many keys as members.
  unfoldable pub fill_members : List KeyMember → List MatchKey → Bytes → Result Bytes
  fill_members [] mks buffer = ok buffer
  fill_members (m ∷ ms) [] buffer = ok buffer
  fill_members (m ∷ ms) (mk ∷ mks) buffer =
      let offset = m.bit_offset / 8 in
      let flags = if as_trie && is_lpm mk.type then write_network_order else write_host_order in
      then_fill
        (then_fill (write_buffer_btf size offset (given mk.bytes) m.type_size flags buffer)
          (fill_prefix mk offset))
        (fill_members ms mks)

abbrev fill_int : ℕ → List MatchKey → Bytes → Result Bytes
fill_int size [] buffer = err eagain
fill_int size (mk ∷ []) buffer =
    if ltb size (key_size mk) then err eperm else ok (copy_at 0 (given mk.bytes) buffer)
fill_int size (mk ∷ mk' ∷ mks) buffer = err eagain

abbrev fill_counted : ℕ → Bool → KeyMember → List KeyMember → List MatchKey → Bytes → Result Bytes
fill_counted size as_trie prefix members mks buffer =
    if length mks == length members
    then fill_members size as_trie prefix members mks buffer
    else err eagain

-- The first member of a trie's key is the length of the prefix; without any member the code asks for
-- as many keys as a uint32_t can count.
abbrev fill_trie_struct : ℕ → List KeyMember → List MatchKey → Bytes → Result Bytes
fill_trie_struct size [] mks buffer = err eagain
fill_trie_struct size (prefix ∷ members) mks buffer =
    fill_counted size true prefix members mks buffer

abbrev no_member : KeyMember
no_member = record { bit_offset = 0; type_size = 0 }

abbrev fill_struct : ℕ → Bool → Bool → List KeyMember → List MatchKey → Bytes → Result Bytes
fill_struct size as_trie named members mks buffer =
    if is_table_dummy_key named members
    then if length mks == 0 then ok buffer else err eagain
    else if as_trie
    then fill_trie_struct size members mks buffer
    else fill_counted size false no_member members mks buffer

abbrev fill_typed : Option KeyType → ℕ → Bool → List MatchKey → Bytes → Result Bytes
fill_typed none size as_trie mks buffer = err eagain
fill_typed (some int_type) size as_trie mks buffer = fill_int size mks buffer
fill_typed (some (struct_type named members)) size as_trie mks buffer =
    fill_struct size as_trie named members mks buffer
fill_typed (some other_type) size as_trie mks buffer = err eagain

unfoldable pub fill_key_btf_info : TableContext → TableEntry → Bytes → Result Bytes
fill_key_btf_info ctx entry buffer =
    fill_typed ctx.key_type ctx.table.key_size (is_lpm_trie ctx.table.type) entry.match_keys buffer
