-- ===== src/Table/MaskValue.antt =====
-- `lpm_prefix_to_mask` of lib/nikss_table.c: the mask as a number.
use nikss.Base.{
  ℕ, zero, suc, ◌+◌, ◌-◌, ◌*◌, ◌/◌, ◌%◌, ◌^◌, ◌≤◌, ◌<◌, ◌≡◌, ◌∙◌, sym, refl, ap, true, false, [],
  ◌∷◌, ◌++◌, ltb, ◌==◌, arith, Bool-cases, inl, inr,
}
use native.Mathlib.Nat.{mul_assoc, mul-add, two-pow-succ}
use nikss.Bpf.Types.{ok}
use nikss.Struct.Buffer.{Bytes}
use nikss.Struct.Fields.{copy_at}
use nikss.Struct.Constructed.{zeros}
use nikss.Counter.Value.{of_bytes, range}
use nikss.Table.Masks.{lpm_prefix_to_mask, prefix_bytes, byte_prefix, ones, mask_bytes}

pow-bytes : (i : ℕ) → 2 ^ (suc (suc (suc (suc (suc (suc (suc (suc (i))))))))) ≡ 256 * 2 ^ i
pow-bytes i = omega (
  arith,
  two-pow-succ i,
  two-pow-succ (suc (i)),
  two-pow-succ (suc (suc (i))),
  two-pow-succ (suc (suc (suc (i)))),
  two-pow-succ (suc (suc (suc (suc (i))))),
  two-pow-succ (suc (suc (suc (suc (suc (i)))))),
  two-pow-succ (suc (suc (suc (suc (suc (suc (i))))))),
  two-pow-succ (suc (suc (suc (suc (suc (suc (suc (i)))))))),
)

range-pow : (k j : ℕ) → range k * 2 ^ j ≡ 2 ^ (8 * k + j)
range-pow zero j = let e : j ≡ 8 * 0 + j = omega arith in omega (arith, ap (λ (i : ℕ). 2 ^ i) e)
range-pow (suc k) j =
    let e : 8 * suc k + j ≡ suc (suc (suc (suc (suc (suc (suc (suc (8 * k + j)))))))) =
      omega arith in
    mul_assoc 256 (range k) (2 ^ j)
    ∙ ap (λ (n : ℕ). 256 * n) (range-pow k j)
    ∙ sym (ap (λ (i : ℕ). 2 ^ i) e ∙ pow-bytes (8 * k + j))

range-add : (a b : ℕ) → range a * range b ≡ range (a + b)
range-add zero b = let e : b ≡ 0 + b = omega arith in omega (arith, ap range e)
range-add (suc a) b =
    mul_assoc 256 (range a) (range b)
    ∙ ap (λ (n : ℕ). 256 * n) (range-add a b)
    ∙ ap range {x = suc (a + b)} {y = suc a + b} (omega arith)

of_bytes-zeros : (k : ℕ) (xs : Bytes) → of_bytes (zeros k ++ xs) ≡ range k * of_bytes xs
of_bytes-zeros zero xs = omega arith
of_bytes-zeros (suc k) xs =
    omega (arith, of_bytes-zeros k xs, mul_assoc 256 (range k) (of_bytes xs))

of_bytes-ones : (q : ℕ) → of_bytes (ones q) + 1 ≡ range q
of_bytes-ones zero = refl
of_bytes-ones (suc q) = omega (arith, of_bytes-ones q)

ones-over : (q : ℕ) → copy_at 0 (ones q) (zeros q) ≡ ones q
ones-over zero = refl
ones-over (suc q) = ap (λ bs. 255 ∷ bs) (ones-over q)

ones-behind : (k q n : ℕ) → n ≡ k + q → copy_at k (ones q) (zeros n) ≡ zeros k ++ ones q
ones-behind zero q n e =
    ap (λ (m : ℕ). copy_at 0 (ones q) (zeros m)) (e ∙ omega arith) ∙ ones-over q
ones-behind (suc k) q zero e = absurd (omega arith)
ones-behind (suc k) q (suc n) e = ap (λ bs. 0 ∷ bs) (ones-behind k q n (omega arith))

byte-before :
    (k b : ℕ) (xs : Bytes) → copy_at k (b ∷ []) (zeros (suc k) ++ xs) ≡ zeros k ++ (b ∷ xs)
byte-before zero b [] = refl
byte-before zero b (x ∷ xs) = refl
byte-before (suc k) b xs = ap (λ bs. 0 ∷ bs) (byte-before k b xs)

byte_prefix-pow : (r : ℕ) → r < 8 → byte_prefix r + 2 ^ (8 - r) ≡ 256
byte_prefix-pow zero lt = refl
byte_prefix-pow (suc (zero)) lt = refl
byte_prefix-pow (suc (suc (zero))) lt = refl
byte_prefix-pow (suc (suc (suc (zero)))) lt = refl
byte_prefix-pow (suc (suc (suc (suc (zero))))) lt = refl
byte_prefix-pow (suc (suc (suc (suc (suc (zero)))))) lt = refl
byte_prefix-pow (suc (suc (suc (suc (suc (suc (zero))))))) lt = refl
byte_prefix-pow (suc (suc (suc (suc (suc (suc (suc (zero)))))))) lt = refl
byte_prefix-pow (suc (suc (suc (suc (suc (suc (suc (suc (r))))))))) lt = absurd (omega arith)

-- a mask of whole bytes, and one that ends within a byte
whole_bytes : (k q : ℕ) → of_bytes (zeros k ++ ones q) + range k ≡ range (k + q)
whole_bytes k q =
    let sum : range k * (of_bytes (ones q) + 1) ≡ range k * range q =
      ap (λ (n : ℕ). range k * n) (of_bytes-ones q) in
    omega (
      arith,
      of_bytes-zeros k (ones q),
      mul-add (range k) (of_bytes (ones q)) 1,
      sum,
      range-add k q,
    )

part_of_byte :
    (k q r : ℕ)
    → r < 8
    → of_bytes (zeros k ++ (byte_prefix r ∷ ones q)) + range k * 2 ^ (8 - r) ≡ range (k + suc q)
part_of_byte k q r lt =
    let inner : ℕ = of_bytes (byte_prefix r ∷ ones q) in
    let rest : inner + 2 ^ (8 - r) ≡ range (suc q) =
      omega (arith, byte_prefix-pow r lt, of_bytes-ones q) in
    let sum : range k * (inner + 2 ^ (8 - r)) ≡ range k * range (suc q) =
      ap (λ (n : ℕ). range k * n) rest in
    omega (
      arith,
      of_bytes-zeros k (byte_prefix r ∷ ones q),
      mul-add (range k) inner (2 ^ (8 - r)),
      sum,
      range-add k (suc q),
    )

range_lem : (n : ℕ) → range n ≡ 2 ^ (8 * n)
range_lem n =
    let e : 8 * n + 0 ≡ 8 * n = omega arith in omega (arith, range-pow n 0, ap (λ (i : ℕ). 2 ^ i) e)

-- what the function writes
abbrev written : ℕ → ℕ → Bytes
written n prefix = mask_bytes 0 prefix n (zeros n)

mask_whole :
    (n prefix : ℕ)
    → prefix ≤ 8 * n
    → (prefix % 8 == 0) ≡ true
    → of_bytes (written n prefix) + 2 ^ (8 * n - prefix) ≡ 2 ^ (8 * n)
mask_whole n prefix le whole =
    let q : ℕ = prefix / 8 in
    let k : ℕ = n - q in
    let even : prefix % 8 ≡ 0 = ground (arith, whole) in
    let sum : n ≡ k + q = omega arith in
    let bytes : copy_at (0 + (n - q)) (ones q) (zeros n) ≡ zeros k ++ ones q =
      ap (λ (i : ℕ). copy_at i (ones q) (zeros n)) {x = 0 + (n - q)} {y = k} (omega arith)
      ∙ ones-behind k q n sum in
    let bits : 8 * k ≡ 8 * n - prefix = omega arith in
    let value : of_bytes (zeros k ++ ones q) + 2 ^ (8 * n - prefix) ≡ 2 ^ (8 * n) = omega (
      arith,
      whole_bytes k q,
      range_lem k,
      ap (λ (i : ℕ). 2 ^ i) bits,
      range_lem n,
      ap range sum,
    ) in
    rw whole (ap (λ bs. of_bytes bs + 2 ^ (8 * n - prefix)) bytes ∙ value)

mask_part :
    (n prefix : ℕ)
    → prefix ≤ 8 * n
    → (prefix % 8 == 0) ≡ false
    → of_bytes (written n prefix) + 2 ^ (8 * n - prefix) ≡ 2 ^ (8 * n)
mask_part n prefix le part =
    let q : ℕ = prefix / 8 in
    let r : ℕ = prefix % 8 in
    let odd : 0 < r = ground (arith, part) in
    let k : ℕ = n - q - 1 in
    let small : r < 8 = omega arith in
    let sum : n ≡ suc k + q = omega arith in
    let bytes : copy_at (0 + (n - q - 1)) (byte_prefix r ∷ [])
          (copy_at (0 + (n - q)) (ones q) (zeros n))
        ≡ zeros k ++ (byte_prefix r ∷ ones q) =
      ap (λ (i : ℕ). copy_at (0 + (n - q - 1)) (byte_prefix r ∷ []) (copy_at i (ones q) (zeros n)))
        {x = 0 + (n - q)} {y = suc k} (omega arith)
      ∙ ap (copy_at (0 + (n - q - 1)) (byte_prefix r ∷ [])) (ones-behind (suc k) q n sum)
      ∙ ap (λ (i : ℕ). copy_at i (byte_prefix r ∷ []) (zeros (suc k) ++ ones q))
          {x = 0 + (n - q - 1)} {y = k} (omega arith)
      ∙ byte-before k (byte_prefix r) (ones q) in
    let bits : 8 * k + (8 - r) ≡ 8 * n - prefix = omega arith in
    let total : k + suc q ≡ n = omega arith in
    let value : of_bytes (zeros k ++ (byte_prefix r ∷ ones q)) + 2 ^ (8 * n - prefix)
        ≡ 2 ^ (8 * n) =
      omega (
        arith,
        part_of_byte k q r small,
        range-pow k (8 - r),
        ap (λ (i : ℕ). 2 ^ i) bits,
        range_lem n,
        ap range total,
      ) in
    rw part (ap (λ bs. of_bytes bs + 2 ^ (8 * n - prefix)) bytes ∙ value)

-- Where a prefix is no longer than its field of `n` bytes, the mask that is written into zero bytes
-- is, lowest byte first, the number 2 ^ (8 * n) - 2 ^ (8 * n - prefix): its highest bits are set, as
-- many as the prefix has, and no other.
pub lpm_prefix_to_mask_lem :
    (n prefix : ℕ)
    → prefix ≤ 8 * n
    → (mask : Bytes) × (lpm_prefix_to_mask 0 n prefix n (zeros n) ≡ ok mask)
      × (of_bytes mask + 2 ^ (8 * n - prefix) ≡ 2 ^ (8 * n))
unfolding lpm_prefix_to_mask
lpm_prefix_to_mask_lem n prefix le =
    let fits : ltb n (prefix_bytes prefix) ≡ false = ground arith in
    (
      written n prefix,
      rw fits refl,
      elim (Bool-cases (prefix % 8 == 0)) [
        | inl t ↦ mask_whole n prefix le t
        | inr f ↦ mask_part n prefix le f
      ],
    )
