-- ===== src/Struct/Constructed.antt =====
-- `construct_struct_from_fields` of lib/common.c: what it puts together.
use nikss.Base.{
  ℕ, zero, suc, ◌+◌, ◌-◌, ◌≤◌, ◌≡◌, ◌∙◌, sym, refl, ap, false, List, [], ◌∷◌, ◌++◌, length,
  length-append, ◌==◌, ltb, if◌then◌else◌, arith, replicate, Bool-cases, inl, inr,
}
use nikss.Bpf.Types.{ok, err, einval}
use nikss.Struct.Buffer.{Bytes}
use nikss.Struct.Fields.{
  DescriptorSet, copy_at, total_size, byte_by_byte, data_fields, construct_struct_from_fields,
  by_fields, fix_struct_data_byte_order, setup_struct_field_descriptor_set_no_btf,
}

abbrev pub concat : List Bytes → Bytes
concat [] = []
concat (f ∷ fs) = f ++ concat fs

abbrev pub zeros : ℕ → Bytes
zeros n = replicate n 0

pub copy_at-zeros :
    (f : Bytes) (n : ℕ) → length f ≤ n → copy_at 0 f (zeros n) ≡ f ++ zeros (n - length f)
copy_at-zeros [] zero le = refl
copy_at-zeros [] (suc n) le = let all : suc n ≡ suc n - 0 = omega arith in ap zeros all
copy_at-zeros (x ∷ f) zero le = absurd (omega arith)
copy_at-zeros (x ∷ f) (suc n) le =
    ap (λ bs. x ∷ bs) (copy_at-zeros f n (omega arith) ∙ ap (λ k. f ++ zeros k) (omega arith))

pub copy_at-behind : (pre f bs : Bytes) → copy_at (length pre) f (pre ++ bs) ≡ pre ++ copy_at 0 f bs
copy_at-behind [] f bs = refl
copy_at-behind (x ∷ pre) f bs = ap (λ cs. x ∷ cs) (copy_at-behind pre f bs)

pub append_nil : (xs : Bytes) → xs ++ [] ≡ xs
append_nil [] = refl
append_nil (x ∷ xs) = ap (λ ys. x ∷ ys) (append_nil xs)

pub append_assoc : (xs ys zs : Bytes) → (xs ++ ys) ++ zs ≡ xs ++ (ys ++ zs)
append_assoc [] ys zs = refl
append_assoc (x ∷ xs) ys zs = ap (λ vs. x ∷ vs) (append_assoc xs ys zs)

byte_by_byte_lem :
    (fs : List Bytes) (pre : Bytes)
    → byte_by_byte fs (length pre) (pre ++ zeros (total_size fs)) ≡ pre ++ concat fs
byte_by_byte_lem [] pre = refl
byte_by_byte_lem (f ∷ fs) pre =
    let n : ℕ = length f + total_size fs in
    let written : copy_at (length pre) f (pre ++ zeros n) ≡ (pre ++ f) ++ zeros (total_size fs) =
      copy_at-behind pre f (zeros n)
      ∙ ap (λ bs. pre ++ bs)
          (copy_at-zeros f n (omega arith) ∙ ap (λ k. f ++ zeros k) (omega arith))
      ∙ sym (append_assoc pre f (zeros (total_size fs))) in
    ap (byte_by_byte fs (length pre + length f)) written
    ∙ ap (λ (k : ℕ). byte_by_byte fs k ((pre ++ f) ++ zeros (total_size fs)))
        (sym (length-append pre f))
    ∙ byte_by_byte_lem fs (pre ++ f)
    ∙ append_assoc pre f (concat fs)

-- Where the number of fields is not that of the data fields of the type, the fields are put one
-- behind the other if their sizes sum up to that of the struct, and the result is EINVAL if they do
-- not.
pub construct_struct_from_fields-joined :
    (fields : List Bytes) (fds : DescriptorSet) (buffer_len : ℕ)
    → (data_fields fds.fields == length fields) ≡ false
    → construct_struct_from_fields fields fds buffer_len
      ≡ (if total_size fields == buffer_len then ok (concat fields) else err einval)
unfolding construct_struct_from_fields
construct_struct_from_fields-joined fields fds buffer_len ne =
    elim (Bool-cases (total_size fields == buffer_len)) [
      | inl t ↦
          (let same : total_size fields ≡ buffer_len = ground arith in
            rw (ne, t)
              (ap (λ n. ok (byte_by_byte fields 0 (zeros n))) (sym same)
                ∙ ap ok (byte_by_byte_lem fields [])))
      | inr e ↦ rw (ne, e) refl
    ]

-- Without BTF a single field that is no longer than the struct is padded with zeros.
pub construct_struct_from_fields-padded :
    (f : Bytes) (size : ℕ)
    → length f ≤ size
    → construct_struct_from_fields (f ∷ []) (setup_struct_field_descriptor_set_no_btf size) size
      ≡ ok (f ++ zeros (size - length f))
unfolding construct_struct_from_fields by_fields fix_struct_data_byte_order
construct_struct_from_fields-padded f size le =
    let fits : ltb size (length f) ≡ false = ground arith in
    rw fits (ap ok (copy_at-zeros f size le))
