-- ===== src/Struct/Slices.antt =====
-- A part of a buffer, and how it changes with a write.
use nikss.Base.{ℕ, zero, suc, ◌+◌, ◌≤◌, ◌≡◌, refl, ap, [], ◌∷◌, length, arith}
use nikss.Struct.Buffer.{Bytes}
use nikss.Struct.Fields.{copy_at}
use nikss.Counter.Value.{first, behind}

abbrev pub slice : ℕ → ℕ → Bytes → Bytes
slice offset n bs = first n (behind offset bs)

pub length-copy_at : (offset : ℕ) (m bs : Bytes) → length (copy_at offset m bs) ≡ length bs
length-copy_at offset m [] = refl
length-copy_at (suc offset) m (b ∷ bs) = ap suc (length-copy_at offset m bs)
length-copy_at zero [] (b ∷ bs) = refl
length-copy_at zero (x ∷ m) (b ∷ bs) = ap suc (length-copy_at zero m bs)

-- what has been written
pub slice-written :
    (offset : ℕ) (m bs : Bytes)
    → offset + length m ≤ length bs
    → slice offset (length m) (copy_at offset m bs) ≡ m
slice-written zero [] bs le = refl
slice-written (suc offset) m [] le = absurd (omega arith)
slice-written zero (x ∷ m) [] le = absurd (omega arith)
slice-written (suc offset) m (b ∷ bs) le = slice-written offset m bs (omega arith)
slice-written zero (x ∷ m) (b ∷ bs) le = ap (λ cs. x ∷ cs) (slice-written zero m bs (omega arith))

first-copy_at :
    (n offset : ℕ) (m bs : Bytes) → n ≤ offset → first n (copy_at offset m bs) ≡ first n bs
first-copy_at zero offset m bs le = refl
first-copy_at (suc n) offset m [] le = refl
first-copy_at (suc n) zero m (b ∷ bs) le = absurd (omega arith)
first-copy_at (suc n) (suc offset) m (b ∷ bs) le =
    ap (λ cs. b ∷ cs) (first-copy_at n offset m bs (omega arith))

-- what stands before a write
pub slice-before :
    (at n offset : ℕ) (m bs : Bytes)
    → at + n ≤ offset
    → slice at n (copy_at offset m bs) ≡ slice at n bs
slice-before zero n offset m bs le = first-copy_at n offset m bs (omega arith)
slice-before (suc at) n offset m [] le = refl
slice-before (suc at) n zero m (b ∷ bs) le = absurd (omega arith)
slice-before (suc at) n (suc offset) m (b ∷ bs) le = slice-before at n offset m bs (omega arith)

-- what stands behind a write
pub slice-behind :
    (at n offset : ℕ) (m bs : Bytes)
    → offset + length m ≤ at
    → slice at n (copy_at offset m bs) ≡ slice at n bs
slice-behind at n offset m [] le = refl
slice-behind at n zero [] (b ∷ bs) le = refl
slice-behind zero n zero (x ∷ m) (b ∷ bs) le = absurd (omega arith)
slice-behind (suc at) n zero (x ∷ m) (b ∷ bs) le = slice-behind at n zero m bs (omega arith)
slice-behind zero n (suc offset) m (b ∷ bs) le = absurd (omega arith)
slice-behind (suc at) n (suc offset) m (b ∷ bs) le = slice-behind at n offset m bs (omega arith)

pub length-slice : (at n : ℕ) (bs : Bytes) → at + n ≤ length bs → length (slice at n bs) ≡ n
length-slice zero zero bs le = refl
length-slice zero (suc n) [] le = absurd (omega arith)
length-slice zero (suc n) (b ∷ bs) le = ap suc (length-slice zero n bs (omega arith))
length-slice (suc at) zero [] le = refl
length-slice (suc at) (suc n) [] le = absurd (omega arith)
length-slice (suc at) n (b ∷ bs) le = length-slice at n bs (omega arith)
