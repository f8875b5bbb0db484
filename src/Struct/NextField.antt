-- ===== src/Struct/NextField.antt =====
-- Going through the fields of a struct: `get_struct_field_descriptor` of lib/common.c, and the
-- iterators over fields, which lib/nikss_digest.c and lib/nikss_register.c each write out.
use nikss.Base.{ℕ, ◌+◌, Bool, true, false, Option, none, some, get_elem?, if◌then◌else◌}
use nikss.Struct.Buffer.{Bytes}
use nikss.Struct.Fields.{FieldType, FieldDescriptor, DescriptorSet}
use nikss.Struct.Slices.{slice}

-- `nikss_struct_field_t`, less its name; its bytes are the part of the buffer that it points to, of
-- `data_len` bytes.
pub record StructField : Type 0 where
  pub type : FieldType
  pub bytes : Option Bytes
  pub data_len : ℕ

abbrev pub is_known : FieldType → Bool
is_known FieldType.unknown = false
is_known FieldType.data_field = true
is_known FieldType.struct_start = true
is_known FieldType.struct_end = true

abbrev pub if_known : Option FieldDescriptor → Option FieldDescriptor
if_known none = none
if_known (some d) = if is_known d.type then some d else none

unfoldable pub get_struct_field_descriptor : DescriptorSet → ℕ → Option FieldDescriptor
get_struct_field_descriptor fds index = if_known (get_elem? fds.fields index)

abbrev pub field_of : Option Bytes → FieldDescriptor → StructField
field_of raw d = record {
  type = d.type;
  bytes = elim raw [ none ↦ none | some bs ↦ some (slice d.data_offset d.data_len bs) ];
  data_len = d.data_len;
}

abbrev pub next_of : Option Bytes → ℕ → Option FieldDescriptor → Option StructField × ℕ
next_of raw id none = (none, 0)
next_of raw id (some d) = (some (field_of raw d), id + 1)

-- The next field and its number; behind the last one the count begins anew.
unfoldable pub next_field : DescriptorSet → Option Bytes → ℕ → Option StructField × ℕ
unfolding get_struct_field_descriptor
next_field fds raw id = next_of raw id (get_struct_field_descriptor fds id)
