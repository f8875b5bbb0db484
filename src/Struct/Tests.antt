-- ===== src/Struct/Tests.antt =====
-- Examples of buffers and structs.
use nikss.Base.{ℕ, ◌≡◌, refl, [], ◌∷◌, length, get_elem?, arith}
use nikss.Bpf.Types.{ok}
use nikss.Struct.Buffer.{Bytes, swap_byte_order}
use nikss.Struct.Swapped.{swap_byte_order_lem, mirrored}
use nikss.Struct.Fields.{construct_struct_from_fields, setup_struct_field_descriptor_set_no_btf}
use nikss.Struct.Constructed.{construct_struct_from_fields-joined}

abbrev five : Bytes
five = 1 ∷ 2 ∷ 3 ∷ 4 ∷ 5 ∷ []

swapped_example :
    ((k : ℕ) → get_elem? (swap_byte_order 1 3 five) k ≡ get_elem? five (mirrored 1 3 k))
    × (length (swap_byte_order 1 3 five) ≡ 5)
swapped_example = swap_byte_order_lem 1 3 five (omega arith)

joined_example :
    construct_struct_from_fields
      ((1 ∷ []) ∷ (2 ∷ 3 ∷ []) ∷ [])
      (setup_struct_field_descriptor_set_no_btf 3)
      3
    ≡ ok (1 ∷ 2 ∷ 3 ∷ [])
joined_example =
    construct_struct_from_fields-joined ((1 ∷ []) ∷ (2 ∷ 3 ∷ []) ∷ [])
      (setup_struct_field_descriptor_set_no_btf 3) 3 refl
