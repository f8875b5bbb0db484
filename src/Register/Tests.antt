-- ===== src/Register/Tests.antt =====
-- A register with keys of 2 bytes and values of 3 bytes, and what is stored in it.
use nikss.Base.{ℕ, ◌≡◌, refl, some, List, [], ◌∷◌}
use nikss.Bpf.Types.{ok, err, enoent, MapCalls, MapType, closed_descriptor}
use nikss.Bpf.Assoc.{find, assoc_calls, assoc_calls-updates}
use nikss.Bpf.Exec.{Proc}
use nikss.Struct.Buffer.{Bytes}
use nikss.Struct.Equal.{bytes_eq}
use nikss.Struct.Fields.{
  setup_struct_field_descriptor_set_no_btf, construct_struct_from_fields, by_fields,
  fix_struct_data_byte_order,
}
use nikss.Register.Access.{
  RegisterContext, RegisterEntry, register_ctx_init, register_entry_init, register_set,
  register_get, register_get_next,
}
use nikss.Register.Stored.{register_get-register_set}

abbrev Cells : Type 0
Cells = List (ℕ × Bytes × Bytes)

abbrev calls : MapCalls Cells Bytes Bytes
calls = assoc_calls 8 (λ w. w) (λ w t. t)

abbrev ctx : RegisterContext
ctx = record register_ctx_init {
  reg = record closed_descriptor { fd = some 6; type = MapType.hash; key_size = 2; value_size = 3 };
  key_fds = setup_struct_field_descriptor_set_no_btf 2;
  value_fds = setup_struct_field_descriptor_set_no_btf 3;
}

-- The value has two parts.
abbrev entry : RegisterEntry
entry = record register_entry_init {
  entry_key = (4 ∷ 0 ∷ []) ∷ [];
  entry_value = (7 ∷ []) ∷ (8 ∷ 9 ∷ []) ∷ [];
}

abbrev reader : RegisterEntry
reader = record register_entry_init { entry_key = (4 ∷ 0 ∷ []) ∷ [] }

abbrev empty : Proc Cells
empty = record { world = []; open_fds = 4 }

missing_run :
    register_get calls ctx reader [] ≡ (err enoent, record reader { raw_key = some (4 ∷ 0 ∷ []) })
unfolding register_get construct_struct_from_fields by_fields fix_struct_data_byte_order
missing_run = refl

next_run : register_get_next calls ctx ((6, 4 ∷ 0 ∷ [], 7 ∷ 8 ∷ 9 ∷ []) ∷ []) ≡ (
  some (record register_entry_init {
    raw_key = some (4 ∷ 0 ∷ []);
    raw_value = some (7 ∷ 8 ∷ 9 ∷ []);
  }),
  record ctx {
    current_entry = record register_entry_init {
      raw_key = some (4 ∷ 0 ∷ []);
      raw_value = some (7 ∷ 8 ∷ 9 ∷ []);
    };
    prev_entry_key = some (4 ∷ 0 ∷ []);
  },
)
unfolding register_get_next fix_struct_data_byte_order
next_run = refl

register_example :
    (register_set calls ctx entry empty ≡ (
      (ok tt, record entry { raw_key = some (4 ∷ 0 ∷ []); raw_value = some (7 ∷ 8 ∷ 9 ∷ []) }),
      record empty { world = (6, 4 ∷ 0 ∷ [], 7 ∷ 8 ∷ 9 ∷ []) ∷ [] },
    ))
    × (register_get calls ctx reader ((6, 4 ∷ 0 ∷ [], 7 ∷ 8 ∷ 9 ∷ []) ∷ [])
        ≡ (ok tt, record reader { raw_key = some (4 ∷ 0 ∷ []); raw_value = some (7 ∷ 8 ∷ 9 ∷ []) }))
unfolding construct_struct_from_fields by_fields fix_struct_data_byte_order
register_example =
    register_get-register_set calls (λ w fd k. find w fd k)
      (assoc_calls-updates 8 (λ w. w) (λ w t. t) (λ w t. refl)) ctx entry reader 6 empty
      ((6, 4 ∷ 0 ∷ [], 7 ∷ 8 ∷ 9 ∷ []) ∷ []) (4 ∷ 0 ∷ []) (7 ∷ 8 ∷ 9 ∷ []) refl refl refl refl refl
