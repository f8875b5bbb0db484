-- ===== src/Struct/FieldWalk.antt =====
-- What the iterators over the fields of a struct return from the first field to the end.
use nikss.Base.{
  ℕ, zero, suc, ◌+◌, ◌≡◌, ◌∙◌, sym, refl, ap, Bool, true, ◌&&◌, Option, none, some, List, [], ◌∷◌,
  ◌++◌, length, length-append, get_elem?, arith, map,
}
use nikss.Struct.Buffer.{Bytes}
use nikss.Struct.Fields.{FieldDescriptor, DescriptorSet}
use nikss.Struct.NextField.{
  StructField, is_known, field_of, next_field, get_struct_field_descriptor, if_known, next_of,
}

-- so many calls, one after the other
abbrev pub repeated : {S A : Type 0} → ℕ → (S → A × S) → S → List A × S
repeated zero f s = ([], s)
repeated (suc k) f s = let (a, s') = f s in let (rest, s'') = repeated k f s' in (a ∷ rest, s'')

abbrev pub all_known : List FieldDescriptor → Bool
all_known [] = true
all_known (d ∷ ds) = is_known d.type && all_known ds

-- what all calls give, the last one included
abbrev pub every_field : Option Bytes → List FieldDescriptor → List (Option StructField)
every_field raw ds = map (λ d. some (field_of raw d)) ds ++ none ∷ []

get-end : (pre : List FieldDescriptor) → get_elem? (pre ++ []) (length pre) ≡ none
get-end [] = refl
get-end (p ∷ pre) = get-end pre

get-here :
    (pre ds : List FieldDescriptor) (d : FieldDescriptor)
    → get_elem? (pre ++ d ∷ ds) (length pre) ≡ some d
get-here [] ds d = refl
get-here (p ∷ pre) ds d = get-here pre ds d

one_more :
    (pre ds : List FieldDescriptor) (d : FieldDescriptor) → pre ++ d ∷ ds ≡ (pre ++ d ∷ []) ++ ds
one_more [] ds d = refl
one_more (p ∷ pre) ds d = ap (λ xs. p ∷ xs) (one_more pre ds d)

module _ (fds : DescriptorSet) (raw : Option Bytes) where
  next_field-end :
      (pre : List FieldDescriptor)
      → fds.fields ≡ pre ++ []
      → next_field fds raw (length pre) ≡ (none, 0)
  unfolding next_field get_struct_field_descriptor
  next_field-end pre h =
      ap (λ xs. next_of raw (length pre) (if_known (get_elem? xs (length pre)))) h
      ∙ ap (λ o. next_of raw (length pre) (if_known o)) (get-end pre)

  next_field-here :
      (pre ds : List FieldDescriptor) (d : FieldDescriptor)
      → fds.fields ≡ pre ++ d ∷ ds
      → is_known d.type ≡ true
      → next_field fds raw (length pre) ≡ (some (field_of raw d), length pre + 1)
  unfolding next_field get_struct_field_descriptor
  next_field-here pre ds d h known =
      ap (λ xs. next_of raw (length pre) (if_known (get_elem? xs (length pre)))) h
      ∙ ap (λ o. next_of raw (length pre) (if_known o)) (get-here pre ds d)
      ∙ rw known refl

  -- an iterator that keeps the number of the field in a state
  module _ {S : Type 0} (f : S → Option StructField × S) (at : ℕ → S)
      (steps : (id : ℕ)
        → f (at id) ≡ ((next_field fds raw id).0, at (next_field fds raw id).1)) where
    pub walk :
        (ds pre : List FieldDescriptor)
        → fds.fields ≡ pre ++ ds
        → all_known ds ≡ true
        → repeated (suc (length ds)) f (at (length pre)) ≡ (every_field raw ds, at 0)
    walk [] pre h known =
        ap (λ q. (q.0 ∷ [], q.1))
          (steps (length pre) ∙ ap (λ q. (q.0, at q.1)) (next_field-end pre h))
    walk (d ∷ ds) pre h known =
        let here : is_known d.type ≡ true = ground (arith, known) in
        let rest : all_known ds ≡ true = ground (arith, known) in
        let next : length pre + 1 ≡ length (pre ++ d ∷ []) = sym (length-append pre (d ∷ [])) in
        let go : S → List (Option StructField) × S = repeated (suc (length ds)) f in
        ap (λ q. (q.0 ∷ (go q.1).0, (go q.1).1))
          (steps (length pre)
            ∙ ap (λ q. (q.0, at q.1)) (next_field-here pre ds d h here)
            ∙ ap (λ i. (some (field_of raw d), at i)) next)
        ∙ ap (λ q. (some (field_of raw d) ∷ q.0, q.1))
            (walk ds (pre ++ d ∷ []) (h ∙ one_more pre ds d) rest)
