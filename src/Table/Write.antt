-- ===== src/Table/Write.antt =====
-- lib/nikss_table.c: `construct_buffer`, and the writes that the functions of BTF share. A function
-- that fills a buffer is given its bytes and gives them back; they do not matter where it fails.
use nikss.Base.{
  ℕ, zero, suc, ◌+◌, ◌-◌, ◌*◌, ◌/◌, Bool, true, false, ◌||◌, none, some, [], ◌∷◌, length, ltb, ◌==◌,
  if◌then◌else◌, replicate,
}
use Prim.Native.Nat.{bit_and}
use nikss.Bpf.Types.{Result, ok, err, hangs, eagain}
use nikss.Struct.Buffer.{Bytes}
use nikss.Struct.Fields.{copy_at}
use nikss.Table.Types.{TableContext}

pub data WriteFlag : Type 0 where
  write_host_order write_network_order : WriteFlag

abbrev pub reversed : Bytes → Bytes → Bytes
reversed [] acc = acc
reversed (x ∷ xs) acc = reversed xs (x ∷ acc)

abbrev pub is_network_order : WriteFlag → Bool
is_network_order write_network_order = true
is_network_order write_host_order = false

-- The data in network byte order end where the field ends.
unfoldable pub write_buffer_btf : ℕ → ℕ → Bytes → ℕ → WriteFlag → Bytes → Result Bytes
write_buffer_btf buffer_len offset bytes type_len flags buffer =
    if ltb buffer_len (offset + length bytes) || ltb type_len (length bytes)
    then err eagain
    else if ltb 8 type_len || is_network_order flags
    then ok (copy_at (offset + (type_len - length bytes)) (reversed bytes []) buffer)
    else ok (copy_at offset bytes buffer)

abbrev pub tries_btf : TableContext → Bool
tries_btf ctx = elim ctx.key_type [ none ↦ false | some type ↦ true ]

abbrev pub or_byte_by_byte : Result Bytes → Result Bytes → Result Bytes
or_byte_by_byte (ok buffer) r = ok buffer
or_byte_by_byte (err e) r = if e == eagain then r else err e
or_byte_by_byte hangs r = hangs

unfoldable pub construct_buffer :
    ℕ → TableContext → (Bytes → Result Bytes) → (Bytes → Result Bytes) → Result Bytes
construct_buffer buffer_len ctx btf_info_func byte_by_byte_func =
    let zeroed = replicate buffer_len 0 in
    or_byte_by_byte (if tries_btf ctx then btf_info_func zeroed else err eagain)
      (byte_by_byte_func zeroed)

abbrev pub and_bytes : ℕ → Bytes → Bytes → Bytes
and_bytes zero dst mask = dst
and_bytes (suc n) [] mask = []
and_bytes (suc n) (d ∷ dst) [] = d ∷ dst
and_bytes (suc n) (d ∷ dst) (m ∷ mask) = bit_and d m ∷ and_bytes n dst mask

-- lib/common.c: whole words of 4 bytes; the conjunction of two words is that of their bytes.
unfoldable pub mem_bitwise_and : Bytes → Bytes → ℕ → Bytes
mem_bitwise_and dst mask len = and_bytes (len / 4 * 4) dst mask
