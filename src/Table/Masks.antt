-- ===== src/Table/Masks.antt =====
-- lib/nikss_table.c: the mask of the keys of an entry in a ternary table, as bytes.
use nikss.Base.{
  ℕ, ◌+◌, ◌-◌, ◌/◌, ◌%◌, ◌^◌, ◌&&◌, ◌||◌, Option, none, some, List, [], ◌∷◌, length, ltb, ◌==◌,
  if◌then◌else◌, replicate,
}
use nikss.Bpf.Types.{Result, ok, err, hangs, eperm, einval, eagain}
use nikss.Struct.Buffer.{Bytes}
use nikss.Struct.Fields.{copy_at}
use nikss.Table.Types.{
  MatchKey, MatchKind, KeyMember, KeyType, int_type, struct_type, other_type, TableEntry,
  TableContext,
}
use nikss.Table.Write.{write_host_order, write_buffer_btf}
use nikss.Table.Keys.{given, key_size, then_fill}

-- the highest bits of a byte
abbrev pub byte_prefix : ℕ → ℕ
byte_prefix n = 2 ^ 8 - 2 ^ (8 - n)

-- `memset` of bytes that are all set
abbrev pub ones : ℕ → Bytes
ones n = replicate n 255

abbrev pub mask_bytes : ℕ → ℕ → ℕ → Bytes → Bytes
mask_bytes offset prefix data_len buffer =
    let ff_bytes = prefix / 8 in
    let whole = copy_at (offset + (data_len - ff_bytes)) (ones ff_bytes) buffer in
    if prefix % 8 == 0
    then whole
    else copy_at (offset + (data_len - ff_bytes - 1)) (byte_prefix (prefix % 8) ∷ []) whole

abbrev pub prefix_bytes : ℕ → ℕ
prefix_bytes prefix = if prefix % 8 == 0 then prefix / 8 else prefix / 8 + 1

-- The field begins at `offset` of the buffer.
unfoldable pub lpm_prefix_to_mask : ℕ → ℕ → ℕ → ℕ → Bytes → Result Bytes
lpm_prefix_to_mask offset buffer_len prefix data_len buffer =
    if ltb data_len (prefix_bytes prefix) || ltb buffer_len (prefix_bytes prefix)
    then err einval
    else ok (mask_bytes offset prefix data_len buffer)

-- How long the mask of a key is: the loop goes on behind it.
abbrev pub mask_len : MatchKind → MatchKey → ℕ
mask_len MatchKind.ternary mk = length (given mk.mask)
mask_len MatchKind.exact mk = key_size mk
mask_len MatchKind.lpm mk = key_size mk
mask_len MatchKind.range mk = 0

abbrev pub fill_mask : MatchKind → MatchKey → ℕ → ℕ → Bytes → Result Bytes
fill_mask MatchKind.exact mk offset bytes_to_write buffer =
    if ltb bytes_to_write (key_size mk)
    then err eperm
    else ok (copy_at offset (ones (key_size mk)) buffer)
fill_mask MatchKind.lpm mk offset bytes_to_write buffer =
    lpm_prefix_to_mask offset bytes_to_write (mk.prefix_len % 2 ^ 32) (key_size mk) buffer
fill_mask MatchKind.ternary mk offset bytes_to_write buffer =
    if ltb bytes_to_write (length (given mk.mask))
    then err eperm
    else ok (copy_at offset (given mk.mask) buffer)
fill_mask MatchKind.range mk offset bytes_to_write buffer = err eagain

-- a difference of two size_t
abbrev pub size_minus : ℕ → ℕ → ℕ
size_minus a b = (a + 2 ^ 64 - b) % 2 ^ 64

-- An LPM field is not compared with the bytes that are left, so that their number may wrap around.
unfoldable pub fill_masks : List MatchKey → ℕ → ℕ → Bytes → Result Bytes
fill_masks [] offset bytes_to_write buffer = if ltb 0 bytes_to_write then err eperm else ok buffer
fill_masks (mk ∷ mks) offset bytes_to_write buffer =
    then_fill (fill_mask mk.type mk offset bytes_to_write buffer) (
      fill_masks mks (offset + mask_len mk.type mk)
        (size_minus bytes_to_write (mask_len mk.type mk)))

unfoldable pub fill_key_mask_byte_by_byte : TableContext → TableEntry → Bytes → Result Bytes
fill_key_mask_byte_by_byte ctx entry buffer =
    fill_masks entry.match_keys 0 ctx.prefixes.key_size buffer

abbrev as_eagain : Result Bytes → Result Bytes
as_eagain (ok buffer) = ok buffer
as_eagain (err e) = err eagain
as_eagain hangs = hangs

-- The mask of a field is made in `tmp_mask`, which is as long as the key.
abbrev fill_member_mask : MatchKind → ℕ → ℕ → KeyMember → MatchKey → Bytes → Result Bytes
fill_member_mask MatchKind.exact size mask_size m mk buffer =
    if ltb size m.type_size
    then err eagain
    else write_buffer_btf mask_size (m.bit_offset / 8) (ones m.type_size) m.type_size
        write_host_order buffer
fill_member_mask MatchKind.lpm size mask_size m mk buffer =
    then_fill
      (as_eagain (
        lpm_prefix_to_mask 0 m.type_size (mk.prefix_len % 2 ^ 32) m.type_size
          (replicate m.type_size 0)))
      (λ mask.
        write_buffer_btf mask_size (m.bit_offset / 8) mask m.type_size write_host_order buffer)
fill_member_mask MatchKind.ternary size mask_size m mk buffer =
    write_buffer_btf mask_size (m.bit_offset / 8) (given mk.mask) m.type_size write_host_order
      buffer
fill_member_mask MatchKind.range size mask_size m mk buffer = err eagain

-- There are as many keys as members.
unfoldable pub fill_member_masks : ℕ → ℕ → List KeyMember → List MatchKey → Bytes → Result Bytes
fill_member_masks size mask_size [] mks buffer = ok buffer
fill_member_masks size mask_size (m ∷ ms) [] buffer = ok buffer
fill_member_masks size mask_size (m ∷ ms) (mk ∷ mks) buffer =
    then_fill (fill_member_mask mk.type size mask_size m mk buffer)
      (fill_member_masks size mask_size ms mks)

-- a struct without members leaves the result at EAGAIN
abbrev fill_struct_masks : ℕ → ℕ → List KeyMember → List MatchKey → Bytes → Result Bytes
fill_struct_masks size mask_size members mks buffer =
    if length mks == length members && ltb 0 (length members)
    then fill_member_masks size mask_size members mks buffer
    else err eagain

abbrev fill_typed_masks : Option KeyType → ℕ → ℕ → List MatchKey → Bytes → Result Bytes
fill_typed_masks none size mask_size mks buffer = err eagain
fill_typed_masks (some int_type) size mask_size mks buffer = err eagain
fill_typed_masks (some (struct_type named members)) size mask_size mks buffer =
    fill_struct_masks size mask_size members mks buffer
fill_typed_masks (some other_type) size mask_size mks buffer = err eagain

unfoldable pub fill_key_mask_btf : TableContext → TableEntry → Bytes → Result Bytes
fill_key_mask_btf ctx entry buffer =
    fill_typed_masks ctx.key_type ctx.table.key_size ctx.prefixes.key_size entry.match_keys buffer
