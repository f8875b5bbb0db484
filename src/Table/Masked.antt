-- ===== src/Table/Masked.antt =====
-- `mem_bitwise_and` of lib/common.c: which bytes of a key are masked.
use nikss.Base.{ℕ, zero, suc, ◌*◌, ◌/◌, ◌≤◌, ◌≡◌, refl, ap, [], ◌∷◌, ◌++◌, length, arith}
use Prim.Native.Nat.{bit_and}
use nikss.Struct.Buffer.{Bytes}
use nikss.Counter.Value.{first, behind}
use nikss.Table.Write.{mem_bitwise_and, and_bytes}

abbrev pub each_and : Bytes → Bytes → Bytes
each_and [] ys = []
each_and (x ∷ xs) [] = []
each_and (x ∷ xs) (y ∷ ys) = bit_and x y ∷ each_and xs ys

and_bytes_lem :
    (n : ℕ) (dst mask : Bytes)
    → n ≤ length dst
    → n ≤ length mask
    → and_bytes n dst mask ≡ each_and (first n dst) (first n mask) ++ behind n dst
and_bytes_lem zero dst mask le le' = refl
and_bytes_lem (suc n) [] mask le le' = absurd (omega arith)
and_bytes_lem (suc n) (d ∷ dst) [] le le' = absurd (omega arith)
and_bytes_lem (suc n) (d ∷ dst) (m ∷ mask) le le' =
    ap (λ bs. bit_and d m ∷ bs) (and_bytes_lem n dst mask (omega arith) (omega arith))

-- Where the key and the mask have the length that is given, every byte is masked up to the largest
-- multiple of 4, and the bytes behind it, up to three, are left as they are.
pub mem_bitwise_and_lem :
    (dst mask : Bytes) (len : ℕ)
    → length dst ≡ len
    → length mask ≡ len
    → mem_bitwise_and dst mask len
      ≡ each_and (first (len / 4 * 4) dst) (first (len / 4 * 4) mask) ++ behind (len / 4 * 4) dst
unfolding mem_bitwise_and
mem_bitwise_and_lem dst mask len e e' =
    and_bytes_lem (len / 4 * 4) dst mask (omega arith) (omega arith)
