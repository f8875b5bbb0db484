-- ===== src/Cli/Hex.antt =====
-- `convert_bin_data_to_hexstr` of CLI/common.c, on the codes of characters.
use nikss.Base.{
  ℕ, zero, suc, ◌+◌, ◌/◌, ◌%◌, Bool, true, false, not, ◌||◌, Option, none, some, List, [], ◌∷◌,
  ◌++◌, length, ltb, ◌==◌, if◌then◌else◌,
}
use nikss.Struct.Buffer.{Bytes}

-- `half_byte_map`: 0 to 9, and a to f
abbrev pub half_byte : ℕ → ℕ
half_byte n = if ltb n 10 then b'0' + n else 87 + n

abbrev pub byte_at : Bytes → ℕ → ℕ
byte_at [] pos = 0
byte_at (b ∷ bs) zero = b
byte_at (b ∷ bs) (suc pos) = byte_at bs pos

-- One digit is appended, or skipped where it is a leading zero; the flag is `zero_skip_allowed`.
abbrev pub append_digit : ℕ → Bool → Bool × List ℕ → Bool × List ℕ
append_digit digit last (skip, buff) =
    if not (digit == b'0') || (not skip || last) then (false, buff ++ digit ∷ []) else (skip, buff)

abbrev pub append_byte : ℕ → Bool → Bool × List ℕ → Bool × List ℕ
append_byte byte last state =
    append_digit (half_byte (byte % 16)) last
      (append_digit (half_byte (byte / 16 % 16)) false state)

-- The loop from the byte before `data_pos` down to the first one.
unfoldable pub hex_from : Bytes → ℕ → Bool × List ℕ → Bool × List ℕ
hex_from data_bytes zero state = state
hex_from data_bytes (suc data_pos) state =
    hex_from data_bytes data_pos (append_byte (byte_at data_bytes data_pos) (data_pos == 0) state)

abbrev digits_of : Bytes → Bool × List ℕ → List ℕ
digits_of data_bytes (skip, buff) = b'0' ∷ b'x' ∷ buff

-- A null pointer is `none`; no data is "0".
unfoldable pub convert_bin_data_to_hexstr : Option Bytes → Option (List ℕ)
unfolding hex_from
convert_bin_data_to_hexstr none = none
convert_bin_data_to_hexstr (some []) = some (b'0' ∷ [])
convert_bin_data_to_hexstr (some (b ∷ bs)) =
    some (digits_of (b ∷ bs) (hex_from (b ∷ bs) (length (b ∷ bs)) (true, [])))
