-- ===== src/Cli/HexTests.antt =====
-- Data as the command line tool prints it.
use nikss.Base.{ℕ, zero, suc, ◌<◌, ◌≡◌, refl, some, List, [], ◌∷◌, length, arith}
use nikss.Counter.Value.{of_bytes}
use nikss.Cli.Hex.{convert_bin_data_to_hexstr, hex_from, byte_at}
use nikss.Cli.HexValue.{hex_value, convert_bin_data_to_hexstr_lem}

zero_run : convert_bin_data_to_hexstr (some (0 ∷ 0 ∷ [])) ≡ some (b'0' ∷ b'x' ∷ b'0' ∷ [])
unfolding convert_bin_data_to_hexstr hex_from
zero_run = refl

hex_run :
    convert_bin_data_to_hexstr (some (0x0f ∷ 0xa0 ∷ 0x01 ∷ 0 ∷ []))
    ≡ some (b'0' ∷ b'x' ∷ b'1' ∷ b'a' ∷ b'0' ∷ b'0' ∷ b'f' ∷ [])
unfolding convert_bin_data_to_hexstr hex_from
hex_run = refl

bytes-bounded : (i : ℕ) → byte_at (15 ∷ 160 ∷ 1 ∷ 0 ∷ []) i < 256
bytes-bounded zero = omega arith
bytes-bounded (suc (zero)) = omega arith
bytes-bounded (suc (suc (zero))) = omega arith
bytes-bounded (suc (suc (suc (zero)))) = omega arith
bytes-bounded (suc (suc (suc (suc (i))))) = omega arith

hex_example :
    (digits : List ℕ) × (convert_bin_data_to_hexstr (some (15 ∷ 160 ∷ 1 ∷ 0 ∷ []))
      ≡ some (b'0' ∷ b'x' ∷ digits))
    × (0 < length digits)
    × (hex_value 0 digits ≡ of_bytes (15 ∷ 160 ∷ 1 ∷ 0 ∷ []))
hex_example = convert_bin_data_to_hexstr_lem 15 (160 ∷ 1 ∷ 0 ∷ []) bytes-bounded
