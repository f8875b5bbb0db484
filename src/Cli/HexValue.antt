-- ===== src/Cli/HexValue.antt =====
-- The number that `convert_bin_data_to_hexstr` of CLI/common.c writes.
use nikss.Base.{
  ℕ, zero, suc, ◌+◌, ◌-◌, ◌*◌, ◌/◌, ◌%◌, ◌<◌, ◌≤◌, ◌≡◌, ◌∙◌, refl, ap, Bool, true, false, not, ◌||◌,
  some, List, [], ◌∷◌, ◌++◌, length, length-append, ltb, ◌==◌, if◌then◌else◌, arith, Bool-cases,
  inl, inr,
}
use native.Mathlib.Nat.{mul_assoc, mul-add}
use nikss.Struct.Buffer.{Bytes}
use nikss.Counter.Value.{of_bytes, range, first}
use nikss.Cli.Hex.{
  half_byte, byte_at, append_digit, append_byte, hex_from, convert_bin_data_to_hexstr,
}

-- the number of a digit, and of digits, the highest first
abbrev pub digit_value : ℕ → ℕ
digit_value c = if ltb c 58 then c - 48 else c - 87

abbrev pub hex_value : ℕ → List ℕ → ℕ
hex_value acc [] = acc
hex_value acc (c ∷ cs) = hex_value (acc * 16 + digit_value c) cs

half_byte-value : (n : ℕ) → n < 16 → digit_value (half_byte n) ≡ n
half_byte-value n lt = ground arith

hex_value-append :
    (acc c : ℕ) (cs : List ℕ) → hex_value acc (cs ++ c ∷ []) ≡ hex_value acc cs * 16 + digit_value c
hex_value-append acc c [] = refl
hex_value-append acc c (d ∷ cs) = hex_value-append (acc * 16 + digit_value d) c cs

-- While zeros are skipped nothing has been written.
abbrev IsSkipping : Bool × List ℕ → Type 0
IsSkipping (skip, buff) = skip ≡ true → hex_value 0 buff ≡ 0

append_digit-value :
    (n : ℕ) (last skip : Bool) (buff : List ℕ)
    → n < 16
    → IsSkipping (skip, buff)
    → let s = append_digit (half_byte n) last (skip, buff) in
      (hex_value 0 s.1 ≡ hex_value 0 buff * 16 + n) × IsSkipping s
append_digit-value n last skip buff lt skipping =
    let value = half_byte-value n lt in
    let appended = hex_value-append 0 (half_byte n) buff in
    elim (Bool-cases (not (half_byte n == 48) || (not skip || last))) [
      | inl t ↦ rw t (omega (arith, value, appended), λ e. absurd (cc))
      | inr f ↦
          let allowed : skip ≡ true = ground (arith, f) in
          let none_written = skipping allowed in
          let nothing : n ≡ 0 = ground (arith, f, lt) in
          rw f (omega (arith, none_written, nothing), skipping)
    ]

append_byte-value :
    (byte : ℕ) (last : Bool) (s : Bool × List ℕ)
    → byte < 256
    → IsSkipping s
    → (hex_value 0 (append_byte byte last s).1 ≡ hex_value 0 s.1 * 256 + byte)
      × IsSkipping (append_byte byte last s)
append_byte-value byte last (skip, buff) lt skipping =
    let (upper, skipping') =
      append_digit-value (byte / 16 % 16) false skip buff (omega arith) skipping in
    let (skip', buff') = append_digit (half_byte (byte / 16 % 16)) false (skip, buff) in
    let (lower, skipping'') =
      append_digit-value (byte % 16) last skip' buff' (omega arith) skipping' in
    (omega (arith, upper, lower), skipping'')

of_bytes-first :
    (bs : Bytes) (pos : ℕ)
    → pos < length bs
    → of_bytes (first (suc pos) bs) ≡ of_bytes (first pos bs) + range pos * byte_at bs pos
of_bytes-first [] pos lt = absurd (omega arith)
of_bytes-first (b ∷ bs) zero lt = omega arith
of_bytes-first (b ∷ bs) (suc pos) lt =
    omega (arith, of_bytes-first bs pos (omega arith), mul_assoc 256 (range pos) (byte_at bs pos))

hex_from-value :
    (bs : Bytes) (pos : ℕ) (s : Bool × List ℕ)
    → ((i : ℕ) → byte_at bs i < 256)
    → pos ≤ length bs
    → IsSkipping s
    → hex_value 0 (hex_from bs pos s).1 ≡ range pos * hex_value 0 s.1 + of_bytes (first pos bs)
unfolding hex_from
hex_from-value bs zero s bytes le skipping = omega arith
hex_from-value bs (suc pos) s bytes le skipping =
    let byte : ℕ = byte_at bs pos in
    let v : ℕ = hex_value 0 s.1 in
    let s' : Bool × List ℕ = append_byte byte (pos == 0) s in
    let (value, skipping') = append_byte-value byte (pos == 0) s (bytes pos) skipping in
    let rest = hex_from-value bs pos s' bytes (omega arith) skipping' in
    let shifted : range pos * hex_value 0 s'.1 ≡ range pos * (v * 256 + byte) =
      ap (λ (n : ℕ). range pos * n) value in
    omega (
      arith,
      rest,
      shifted,
      mul-add (range pos) (v * 256) byte,
      mul_assoc (range pos) v 256,
      mul_assoc 256 (range pos) v,
      of_bytes-first bs pos (omega arith),
    )

first-all : (bs : Bytes) → first (length bs) bs ≡ bs
first-all [] = refl
first-all (b ∷ bs) = ap (λ cs. b ∷ cs) (first-all bs)

append_digit-last : (digit : ℕ) (s : Bool × List ℕ) → 0 < length (append_digit digit true s).1
append_digit-last digit (skip, buff) =
    let always : (not (digit == 48) || (not skip || true)) ≡ true = ground arith in
    rw (always, length-append buff (digit ∷ [])) (omega arith)

-- A digit is written for the last byte.
hex_from-some : (bs : Bytes) (pos : ℕ) (s : Bool × List ℕ) → 0 < length (hex_from bs (suc pos) s).1
unfolding hex_from
hex_from-some bs zero s =
    append_digit-last (half_byte (byte_at bs 0 % 16))
      (append_digit (half_byte (byte_at bs 0 / 16 % 16)) false s)
hex_from-some bs (suc pos) s =
    hex_from-some bs pos (append_byte (byte_at bs (suc pos)) (suc pos == 0) s)

-- Data of at least one byte is written as 0x and at least one digit, and the number of the digits is
-- that of the data with the lowest byte first, whatever leading zeros are skipped.
pub convert_bin_data_to_hexstr_lem :
    (b : ℕ) (bs : Bytes)
    → ((i : ℕ) → byte_at (b ∷ bs) i < 256)
    → (digits : List ℕ) × (convert_bin_data_to_hexstr (some (b ∷ bs)) ≡ some (b'0' ∷ b'x' ∷ digits))
      × (0 < length digits)
      × (hex_value 0 digits ≡ of_bytes (b ∷ bs))
unfolding convert_bin_data_to_hexstr
convert_bin_data_to_hexstr_lem b bs bytes =
    let all : Bytes = b ∷ bs in
    (
      (hex_from all (length all) (true, [])).1,
      refl,
      hex_from-some all (length bs) (true, []),
      hex_from-value all (length all) (true, []) bytes (omega arith) (λ e. refl)
          ∙ omega (arith, ap of_bytes (first-all all)),
    )
