-- ===== src/Struct/Fields.antt =====
-- lib/common.c: a struct as bytes, from its fields and the descriptors of its type. Names are left
-- out.
use nikss.Base.{
  ℕ, zero, suc, ◌+◌, Bool, true, false, not, Option, none, some, List, [], ◌∷◌, ◌++◌, length, ◌==◌,
  ltb, if◌then◌else◌, replicate,
}
use nikss.Bpf.Types.{Result, ok, err, einval, enodata}
use nikss.Struct.Buffer.{Bytes, swap_byte_order, swap_from, swap_bytes}

pub data FieldType : Type 0 where
  unknown data_field struct_start struct_end : FieldType

pub record FieldDescriptor : Type 0 where
  pub type : FieldType
  pub data_offset : ℕ
  pub data_len : ℕ

pub record DescriptorSet : Type 0 where
  pub fields : List FieldDescriptor
  pub decoded_with_btf : Bool

abbrev pub is_data : FieldType → Bool
is_data FieldType.data_field = true
is_data FieldType.unknown = false
is_data FieldType.struct_start = false
is_data FieldType.struct_end = false

-- A set of fields is the list of their data.
unfoldable pub struct_field_set_append :
    Option (List Bytes) → Option Bytes → Result (Unit {0}) × Option (List Bytes)
struct_field_set_append none field = (err einval, none)
struct_field_set_append (some sfs) none = (err enodata, some sfs)
struct_field_set_append (some sfs) (some []) = (err enodata, some sfs)
struct_field_set_append (some sfs) (some (b ∷ bs)) = (ok tt, some (sfs ++ (b ∷ bs) ∷ []))

abbrev pub setup_struct_field_descriptor_set_no_btf : ℕ → DescriptorSet
setup_struct_field_descriptor_set_no_btf data_size = record {
  fields = (record { type = FieldType.data_field; data_offset = 0; data_len = data_size }) ∷ [];
  decoded_with_btf = false;
}

-- `memcpy` to an offset of the buffer
abbrev pub copy_at : ℕ → Bytes → Bytes → Bytes
copy_at offset src [] = []
copy_at (suc offset) src (b ∷ bs) = b ∷ copy_at offset src bs
copy_at zero [] (b ∷ bs) = b ∷ bs
copy_at zero (x ∷ src) (b ∷ bs) = x ∷ copy_at zero src bs

unfoldable pub fix_fields : List FieldDescriptor → ℕ → Bytes → Bytes
fix_fields [] buffer_len buffer = buffer
fix_fields (d ∷ ds) buffer_len buffer =
    let skipped = fix_fields ds buffer_len buffer in
    let swapped = fix_fields ds buffer_len (swap_byte_order d.data_offset d.data_len buffer) in
    if not (is_data d.type)
    then skipped
    else if ltb buffer_len (d.data_len + d.data_offset)
    then buffer
    else if ltb 8 d.data_len
    then swapped
    else skipped

unfoldable pub fix_struct_data_byte_order : DescriptorSet → ℕ → Bytes → Bytes
fix_struct_data_byte_order fds buffer_len buffer =
    if not fds.decoded_with_btf then buffer else fix_fields fds.fields buffer_len buffer

abbrev pub data_fields : List FieldDescriptor → ℕ
data_fields [] = 0
data_fields (d ∷ ds) = if is_data d.type then 1 + data_fields ds else data_fields ds

-- `none` where a field is too long; there are as many fields as descriptors of data.
unfoldable pub by_fields : List FieldDescriptor → List Bytes → Bytes → Option Bytes
by_fields [] fields buffer = some buffer
by_fields (d ∷ ds) [] buffer = if is_data d.type then none else by_fields ds [] buffer
by_fields (d ∷ ds) (f ∷ fs) buffer =
    let skipped = by_fields ds (f ∷ fs) buffer in
    let copied = by_fields ds fs (copy_at d.data_offset f buffer) in
    if not (is_data d.type) then skipped else if ltb d.data_len (length f) then none else copied

abbrev pub total_size : List Bytes → ℕ
total_size [] = 0
total_size (f ∷ fs) = length f + total_size fs

abbrev pub byte_by_byte : List Bytes → ℕ → Bytes → Bytes
byte_by_byte [] offset buffer = buffer
byte_by_byte (f ∷ fs) offset buffer = byte_by_byte fs (offset + length f) (copy_at offset f buffer)

abbrev pub joined : List Bytes → ℕ → Bytes → Result Bytes
joined fields buffer_len buffer =
    if total_size fields == buffer_len then ok (byte_by_byte fields 0 buffer) else err einval

abbrev pub fixed_or_joined : DescriptorSet → List Bytes → ℕ → Bytes → Option Bytes → Result Bytes
fixed_or_joined fds fields buffer_len zeros (some buffer) =
    ok (fix_struct_data_byte_order fds buffer_len buffer)
fixed_or_joined fds fields buffer_len zeros none = joined fields buffer_len zeros

-- Where a field is too long the buffer holds the fields before it when the second way begins; that
-- way writes every byte, or fails.
unfoldable pub construct_struct_from_fields : List Bytes → DescriptorSet → ℕ → Result Bytes
unfolding fix_struct_data_byte_order fix_fields by_fields swap_byte_order swap_from swap_bytes
construct_struct_from_fields fields fds buffer_len =
    let zeros = replicate buffer_len 0 in
    if data_fields fds.fields == length fields
    then fixed_or_joined fds fields buffer_len zeros (by_fields fds.fields fields zeros)
    else joined fields buffer_len zeros
