-- ===== src/Struct/Buffer.antt =====
-- lib/common.c: writes into a buffer of bytes, and `swap_byte_order`. A write outside the buffer,
-- which is undefined in C, is dropped.
use nikss.Base.{ℕ, zero, suc, ◌+◌, ◌-◌, ◌/◌, Option, none, some, List, [], ◌∷◌, get_elem?}

abbrev pub Bytes : Type 0
Bytes = List ℕ

abbrev pub set_at : Bytes → ℕ → ℕ → Bytes
set_at [] k v = []
set_at (x ∷ xs) zero v = v ∷ xs
set_at (x ∷ xs) (suc k) v = x ∷ set_at xs k v

abbrev exchange : Option ℕ → Option ℕ → Bytes → ℕ → ℕ → Bytes
exchange (some x) (some y) xs a b = set_at (set_at xs a y) b x
exchange (some x) none xs a b = xs
exchange none y xs a b = xs

-- the bytes at two places of the buffer
unfoldable pub swap_bytes : Bytes → ℕ → ℕ → Bytes
swap_bytes xs a b = exchange (get_elem? xs a) (get_elem? xs b) xs a b

-- The `for` loop from `i` on, for so many rounds, with the data at the offset `at` of the buffer.
unfoldable pub swap_from : ℕ → ℕ → ℕ → ℕ → Bytes → Bytes
swap_from zero i at len xs = xs
swap_from (suc rounds) i at len xs =
    swap_from rounds (i + 1) at len (swap_bytes xs (at + i) (at + (len - 1 - i)))

unfoldable pub swap_byte_order : ℕ → ℕ → Bytes → Bytes
swap_byte_order at len xs = swap_from (len / 2) 0 at len xs
