-- ===== src/Counter/Value.antt =====
-- lib/nikss_counter.c: the value of a counter as bytes. A uint64_t is stored with its lowest byte
-- first, as on x86; a size is at most 8 bytes for each number.
use nikss.Base.{
  ℕ, zero, suc, ◌+◌, ◌*◌, ◌/◌, ◌%◌, ◌<◌, ◌≡◌, ◌∙◌, sym, refl, ap, Bool, true, ◌&&◌, Option, none,
  some, [], ◌∷◌, ◌++◌, ◌==◌, arith,
}
use nikss.Struct.Buffer.{Bytes}

pub data CounterType : Type 0 where
  unknown bytes packets bytes_and_packets : CounterType

-- The two numbers of an entry.
pub record CounterValue : Type 0 where
  pub bytes : ℕ
  pub packets : ℕ

-- the lowest bytes of a number in memory
abbrev pub to_bytes : ℕ → ℕ → Bytes
to_bytes zero v = []
to_bytes (suc size) v = (v % 256) ∷ to_bytes size (v / 256)

-- a number of which the lowest bytes are written, the others 0
abbrev pub of_bytes : Bytes → ℕ
of_bytes [] = 0
of_bytes (b ∷ bs) = b + 256 * of_bytes bs

abbrev pub first : ℕ → Bytes → Bytes
first zero bs = []
first (suc n) [] = []
first (suc n) (b ∷ bs) = b ∷ first n bs

abbrev pub behind : ℕ → Bytes → Bytes
behind zero bs = bs
behind (suc n) [] = []
behind (suc n) (b ∷ bs) = behind n bs

unfoldable pub convert_counter_data_to_entry : Bytes → ℕ → CounterType → CounterValue
convert_counter_data_to_entry bs counter_size CounterType.unknown = record {
  bytes = 0;
  packets = 0;
}
convert_counter_data_to_entry bs counter_size CounterType.bytes = record {
  bytes = of_bytes (first counter_size bs);
  packets = 0;
}
convert_counter_data_to_entry bs counter_size CounterType.packets = record {
  bytes = 0;
  packets = of_bytes (first counter_size bs);
}
convert_counter_data_to_entry bs counter_size CounterType.bytes_and_packets = record {
  bytes = of_bytes (first (counter_size / 2) bs);
  packets = of_bytes (first (counter_size / 2) (behind (counter_size / 2) bs));
}

-- `none` is EBADF.
unfoldable pub convert_counter_entry_to_data : CounterType → ℕ → CounterValue → Option Bytes
convert_counter_entry_to_data CounterType.unknown counter_size v = none
convert_counter_entry_to_data CounterType.bytes counter_size v =
    some (to_bytes counter_size v.bytes)
convert_counter_entry_to_data CounterType.packets counter_size v =
    some (to_bytes counter_size v.packets)
convert_counter_entry_to_data CounterType.bytes_and_packets counter_size v =
    some (to_bytes (counter_size / 2) v.bytes ++ to_bytes (counter_size / 2) v.packets)

unfoldable pub is_zero_counter_value : Bytes → Bool
is_zero_counter_value [] = true
is_zero_counter_value (b ∷ bs) = b == 0 && is_zero_counter_value bs

-- How many values so many bytes have.
abbrev pub range : ℕ → ℕ
range zero = 1
range (suc size) = 256 * range size

-- The number that a type of counters keeps of each of the two.
abbrev pub kept : CounterType → CounterValue → CounterValue
kept CounterType.unknown v = record { bytes = 0; packets = 0 }
kept CounterType.bytes v = record { bytes = v.bytes; packets = 0 }
kept CounterType.packets v = record { bytes = 0; packets = v.packets }
kept CounterType.bytes_and_packets v = v

-- the bytes of each number
abbrev pub number_size : CounterType → ℕ → ℕ
number_size CounterType.unknown size = size
number_size CounterType.bytes size = size
number_size CounterType.packets size = size
number_size CounterType.bytes_and_packets size = size / 2

pub of_bytes-to_bytes : (n v : ℕ) → v < range n → of_bytes (to_bytes n v) ≡ v
of_bytes-to_bytes zero v lt = omega arith
of_bytes-to_bytes (suc n) v lt =
    let rest = of_bytes-to_bytes n (v / 256) (omega arith) in omega (arith, rest)

pub first-to_bytes : (n v : ℕ) (bs : Bytes) → first n (to_bytes n v ++ bs) ≡ to_bytes n v
first-to_bytes zero v bs = refl
first-to_bytes (suc n) v bs = ap (λ cs. (v % 256) ∷ cs) (first-to_bytes n (v / 256) bs)

first-all : (n v : ℕ) → first n (to_bytes n v) ≡ to_bytes n v
first-all zero v = refl
first-all (suc n) v = ap (λ cs. (v % 256) ∷ cs) (first-all n (v / 256))

behind-to_bytes : (n v : ℕ) (bs : Bytes) → behind n (to_bytes n v ++ bs) ≡ bs
behind-to_bytes zero v bs = refl
behind-to_bytes (suc n) v bs = behind-to_bytes n (v / 256) bs

read_back : (n v : ℕ) → v < range n → of_bytes (first n (to_bytes n v)) ≡ v
read_back n v lt = ap of_bytes (first-all n v) ∙ of_bytes-to_bytes n v lt

-- For each type of counters, numbers that fit into their bytes are read back from the data that they
-- are written to; a number that the type does not keep is read as 0.
pub convert_counter_data_to_entry-convert_counter_entry_to_data :
    (type : CounterType) (size : ℕ) (v : CounterValue) (bs : Bytes)
    → v.bytes < range (number_size type size)
    → v.packets < range (number_size type size)
    → convert_counter_entry_to_data type size v ≡ some bs
    → convert_counter_data_to_entry bs size type ≡ kept type v
unfolding convert_counter_data_to_entry convert_counter_entry_to_data
convert_counter_data_to_entry-convert_counter_entry_to_data CounterType.unknown size v bs fb fp h =
    absurd (cc)
convert_counter_data_to_entry-convert_counter_entry_to_data CounterType.bytes size v bs fb fp h =
    let same : to_bytes size v.bytes ≡ bs = cc in
    ap (λ (n : ℕ). record { bytes = n; packets = 0 })
      (ap (λ cs. of_bytes (first size cs)) (sym same) ∙ read_back size v.bytes fb)
convert_counter_data_to_entry-convert_counter_entry_to_data CounterType.packets size v bs fb fp h =
    let same : to_bytes size v.packets ≡ bs = cc in
    ap (λ (n : ℕ). record { bytes = 0; packets = n })
      (ap (λ cs. of_bytes (first size cs)) (sym same) ∙ read_back size v.packets fp)
convert_counter_data_to_entry-convert_counter_entry_to_data CounterType.bytes_and_packets size v bs
      fb fp h =
    let n : ℕ = size / 2 in
    let same : to_bytes n v.bytes ++ to_bytes n v.packets ≡ bs = cc in
    let low : of_bytes (first n bs) ≡ v.bytes =
      ap (λ cs. of_bytes (first n cs)) (sym same)
      ∙ ap of_bytes (first-to_bytes n v.bytes (to_bytes n v.packets))
      ∙ of_bytes-to_bytes n v.bytes fb in
    let high : of_bytes (first n (behind n bs)) ≡ v.packets =
      ap (λ cs. of_bytes (first n (behind n cs))) (sym same)
      ∙ ap (λ cs. of_bytes (first n cs)) (behind-to_bytes n v.bytes (to_bytes n v.packets))
      ∙ read_back n v.packets fp in
    rw (low, high) refl
