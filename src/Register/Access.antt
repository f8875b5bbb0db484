-- ===== src/Register/Access.antt =====
-- lib/nikss_register.c, for a context and an entry that are no null pointers. After a failure to
-- make up a key or a value, or to read one, its buffer counts as not written.
use Prim.Native.String.{String}
use nikss.Base.{ℕ, false, Option, none, some, List, []}
use nikss.Bpf.Types.{
  Result, ok, err, hangs, FileCalls, MapCalls, MapDescriptor, closed_descriptor, any, ebadf,
}
use nikss.Bpf.Exec.{Proc, Exec, close_fds}
use nikss.Bpf.Open.{open_bpf_map}
use nikss.Table.Prefixes.{minus_one}
use nikss.Struct.Buffer.{Bytes}
use nikss.Struct.Fields.{
  DescriptorSet, struct_field_set_append, construct_struct_from_fields, fix_struct_data_byte_order,
  setup_struct_field_descriptor_set_no_btf,
}
use nikss.Struct.NextField.{StructField, next_field}

-- `nikss_register_entry_t`, less the field that its iterators return
pub record RegisterEntry : Type 0 where
  pub entry_key : List Bytes
  pub entry_value : List Bytes
  pub raw_key : Option Bytes
  pub raw_value : Option Bytes
  pub current_field_id : ℕ

-- `nikss_register_context_t`, less its BTF
pub record RegisterContext : Type 0 where
  pub reg : MapDescriptor
  pub key_fds : DescriptorSet
  pub value_fds : DescriptorSet
  pub current_entry : RegisterEntry
  pub prev_entry_key : Option Bytes

abbrev pub register_entry_init : RegisterEntry
register_entry_init = record {
  entry_key = [];
  entry_value = [];
  raw_key = none;
  raw_value = none;
  current_field_id = 0;
}

abbrev pub no_fields : DescriptorSet
no_fields = record { fields = []; decoded_with_btf = false }

-- All is zero, so that the map is the descriptor 0.
abbrev pub register_ctx_init : RegisterContext
register_ctx_init = record {
  reg = record closed_descriptor { fd = some 0 };
  key_fds = no_fields;
  value_fds = no_fields;
  current_entry = register_entry_init;
  prev_entry_key = none;
}

-- The fields of the value are not freed.
abbrev pub register_entry_free : RegisterEntry → RegisterEntry
register_entry_free entry = record entry { entry_key = []; raw_key = none; raw_value = none }

abbrev without_fields : DescriptorSet → DescriptorSet
without_fields fds = record fds { fields = [] }

unfoldable pub register_ctx_free :
    {W : Type 0} → RegisterContext → Proc W → RegisterContext × Proc W
register_ctx_free ctx s = (
  record ctx {
    reg = record ctx.reg { fd = none };
    key_fds = without_fields ctx.key_fds;
    value_fds = without_fields ctx.value_fds;
  },
  close_fds ctx.reg.fd s,
)

-- one part of the key, or of the value; a null pointer is `none`
unfoldable pub register_entry_set_key :
    RegisterEntry → Option Bytes → Result (Unit {0}) × RegisterEntry
unfolding struct_field_set_append
register_entry_set_key entry part =
    let (r, fields) = struct_field_set_append (some entry.entry_key) part in
    (r, record entry { entry_key = elim fields [ none ↦ entry.entry_key | some fs ↦ fs ] })

unfoldable pub register_entry_set_value :
    RegisterEntry → Option Bytes → Result (Unit {0}) × RegisterEntry
unfolding struct_field_set_append
register_entry_set_value entry part =
    let (r, fields) = struct_field_set_append (some entry.entry_value) part in
    (r, record entry { entry_value = elim fields [ none ↦ entry.entry_value | some fs ↦ fs ] })

-- Both iterators count in the same place.
unfoldable pub register_get_next_value_field :
    RegisterContext → RegisterEntry → Option StructField × RegisterEntry
register_get_next_value_field ctx entry =
    let (field, id) = next_field ctx.value_fds entry.raw_value entry.current_field_id in
    (field, record entry { current_field_id = id })

unfoldable pub register_get_next_index_field :
    RegisterContext → RegisterEntry → Option StructField × RegisterEntry
register_get_next_index_field ctx entry =
    let (field, id) = next_field ctx.key_fds entry.raw_key entry.current_field_id in
    (field, record entry { current_field_id = id })

module _ {W : Type 0} (files : FileCalls W) where
  -- without BTF, for a register whose context is initialised
  abbrev with_types :
      RegisterContext
      → Result (Unit {0}) × MapDescriptor × Proc W
      → Result (Unit {0}) × RegisterContext × Proc W
  with_types ctx (ok u, md, s) = (
    ok tt,
    record ctx {
      reg = md;
      key_fds = setup_struct_field_descriptor_set_no_btf md.key_size;
      value_fds = setup_struct_field_descriptor_set_no_btf md.value_size;
    },
    s,
  )
  with_types ctx (err e, md, s) = (err e, record ctx { reg = md }, s)
  with_types ctx (hangs, md, s) = (hangs, record ctx { reg = md }, s)

  unfoldable pub register_ctx_name :
      ℕ → String → RegisterContext → Proc W → Result (Unit {0}) × RegisterContext × Proc W
  unfolding open_bpf_map
  register_ctx_name pipeline_id name ctx s =
      with_types ctx (open_bpf_map files pipeline_id name ctx.reg s)

module _ {W : Type 0} (calls : MapCalls W Bytes Bytes) where
  -- a call with a closed descriptor fails
  abbrev pub lookup_in : Option ℕ → Bytes → W → Result Bytes
  lookup_in none key w = err ebadf
  lookup_in (some fd) key w = calls.lookup w fd key

  -- Key and value are brought into the byte order of the fields, both by the fields of the value.
  abbrev pub with_value :
      RegisterContext → RegisterEntry → Bytes → Result Bytes → Result (Unit {0}) × RegisterEntry
  with_value ctx entry key (ok value) = (
    ok tt,
    record entry {
      raw_key = some (fix_struct_data_byte_order ctx.value_fds ctx.reg.key_size key);
      raw_value = some (fix_struct_data_byte_order ctx.value_fds ctx.reg.value_size value);
    },
  )
  with_value ctx entry key (err e) = (err e, record entry { raw_key = some key })
  with_value ctx entry key hangs = (hangs, record entry { raw_key = some key })

  abbrev pub get_at :
      RegisterContext → RegisterEntry → Result Bytes → W → Result (Unit {0}) × RegisterEntry
  get_at ctx entry (ok key) w = with_value ctx entry key (lookup_in ctx.reg.fd key w)
  get_at ctx entry (err e) w = (err e, entry)
  get_at ctx entry hangs w = (hangs, entry)

  unfoldable pub register_get :
      RegisterContext → RegisterEntry → W → Result (Unit {0}) × RegisterEntry
  unfolding construct_struct_from_fields fix_struct_data_byte_order
  register_get ctx entry w =
      get_at ctx entry (construct_struct_from_fields entry.entry_key ctx.key_fds ctx.reg.key_size) w

  -- The result of the call is returned, and errno is not read.
  abbrev pub updated : Result W → Proc W → Result (Unit {0}) × Proc W
  updated (ok w) s = (ok tt, record s { world = w })
  updated (err e) s = (err minus_one, s)
  updated hangs s = (hangs, s)

  abbrev pub update_in : Option ℕ → Bytes → Bytes → Exec W (Unit {0})
  update_in none key value s = (err minus_one, s)
  update_in (some fd) key value s = updated (calls.update s.world fd key value any) s

  abbrev pub set_value_at :
      RegisterContext
      → RegisterEntry
      → Bytes
      → Result Bytes
      → Proc W
      → (Result (Unit {0}) × RegisterEntry) × Proc W
  set_value_at ctx entry key (ok value) s =
      let (r, s') = update_in ctx.reg.fd key value s in
      ((r, record entry { raw_key = some key; raw_value = some value }), s')
  set_value_at ctx entry key (err e) s = ((err e, record entry { raw_key = some key }), s)
  set_value_at ctx entry key hangs s = ((hangs, record entry { raw_key = some key }), s)

  abbrev pub set_at :
      RegisterContext
      → RegisterEntry
      → Result Bytes
      → Proc W
      → (Result (Unit {0}) × RegisterEntry) × Proc W
  set_at ctx entry (ok key) s =
      set_value_at ctx entry key
        (construct_struct_from_fields entry.entry_value ctx.value_fds ctx.reg.value_size) s
  set_at ctx entry (err e) s = ((err e, entry), s)
  set_at ctx entry hangs s = ((hangs, entry), s)

  unfoldable pub register_set :
      RegisterContext → RegisterEntry → Proc W → (Result (Unit {0}) × RegisterEntry) × Proc W
  unfolding construct_struct_from_fields
  register_set ctx entry s =
      set_at ctx entry (construct_struct_from_fields entry.entry_key ctx.key_fds ctx.reg.key_size) s

  abbrev read_next : RegisterContext → Bytes → Result Bytes → Option RegisterEntry × RegisterContext
  read_next ctx key (ok value) =
      let entry = record ctx.current_entry {
        raw_key = some (fix_struct_data_byte_order ctx.key_fds ctx.reg.key_size key);
        raw_value = some (fix_struct_data_byte_order ctx.value_fds ctx.reg.value_size value);
      } in
      (some entry, record ctx { current_entry = entry })
  read_next ctx key (err e) =
      (none, record ctx { current_entry = record ctx.current_entry { raw_key = some key } })
  read_next ctx key hangs =
      (none, record ctx { current_entry = record ctx.current_entry { raw_key = some key } })

  -- Behind the last key the iteration begins anew.
  abbrev next_at : RegisterContext → Result Bytes → W → Option RegisterEntry × RegisterContext
  next_at ctx (ok key) w =
      read_next (record ctx { prev_entry_key = some key }) key (lookup_in ctx.reg.fd key w)
  next_at ctx (err e) w = (none, record ctx { prev_entry_key = none })
  next_at ctx hangs w = (none, record ctx { prev_entry_key = none })

  abbrev next_in : RegisterContext → Option ℕ → W → Option RegisterEntry × RegisterContext
  next_in ctx none w = (none, record ctx { prev_entry_key = none })
  next_in ctx (some fd) w = next_at ctx (calls.next_key w fd ctx.prev_entry_key) w

  unfoldable pub register_get_next : RegisterContext → W → Option RegisterEntry × RegisterContext
  unfolding fix_struct_data_byte_order
  register_get_next ctx w = next_in ctx ctx.reg.fd w
