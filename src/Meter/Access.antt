-- ===== src/Meter/Access.antt =====
-- lib/nikss_meter.c: reading, setting and resetting meters, for a context and an entry that are no
-- null pointers. BPF_F_LOCK, which makes an access to one entry atomic, does not change what is read
-- or written.
use Prim.Native.String.{String}
use nikss.Base.{ℕ, ◌*◌, false, Option, none, some, List, [], ◌∷◌, ◌++◌, ltb, if◌then◌else◌}
use nikss.Bpf.Types.{
  Result, ok, err, hangs, FileCalls, MapCalls, MapDescriptor, closed_descriptor, any, ebadf, einval,
}
use nikss.Bpf.Exec.{Proc, Exec, command, close_fds}
use nikss.Bpf.Open.{open_bpf_map}
use nikss.Table.Clear.{is_array, delete_all_map_entries, clear_from}
use nikss.Struct.Buffer.{Bytes}
use nikss.Struct.Slices.{slice}
use nikss.Struct.Constructed.{zeros}
use nikss.Struct.Fields.{
  DescriptorSet, struct_field_set_append, copy_at, construct_struct_from_fields,
  fix_struct_data_byte_order, setup_struct_field_descriptor_set_no_btf,
}
use nikss.Struct.NextField.{StructField, next_field}
use nikss.Counter.Value.{to_bytes, of_bytes}
use nikss.Meter.Rate.{
  MeterEntry, MeterData, convert_meter_data_to_entry, convert_meter_entry_to_data,
}

-- `nikss_meter_entry_t`, with its rates and bursts as a part of its own, less the field that its
-- iterator returns
pub record IndexedEntry : Type 0 where
  pub index_sfs : List Bytes
  pub raw_index : Option Bytes
  pub current_index_field_id : ℕ
  pub rates : MeterEntry

-- `nikss_meter_ctx_t`, less its BTF
pub record MeterContext : Type 0 where
  pub meter : MapDescriptor
  pub index_fds : DescriptorSet
  pub current_entry : IndexedEntry
  pub previous_index : Option Bytes

abbrev pub no_rates : MeterEntry
no_rates = record { pir = 0; pbs = 0; cir = 0; cbs = 0 }

abbrev pub meter_entry_init : IndexedEntry
meter_entry_init = record {
  index_sfs = [];
  raw_index = none;
  current_index_field_id = 0;
  rates = no_rates;
}

-- nothing is left of the entry
abbrev pub meter_entry_free : IndexedEntry → IndexedEntry
meter_entry_free entry = meter_entry_init

unfoldable pub meter_entry_index : IndexedEntry → Option Bytes → Result (Unit {0}) × IndexedEntry
unfolding struct_field_set_append
meter_entry_index entry part =
    let (r, fields) = struct_field_set_append (some entry.index_sfs) part in
    (r, record entry { index_sfs = elim fields [ none ↦ entry.index_sfs | some fs ↦ fs ] })

abbrev pub meter_entry_data : IndexedEntry → MeterEntry → IndexedEntry
meter_entry_data entry rates = record entry { rates = rates }

abbrev pub meter_entry_get_data : IndexedEntry → MeterEntry
meter_entry_get_data entry = entry.rates

unfoldable pub meter_entry_get_next_index_field :
    MeterContext → IndexedEntry → Option StructField × IndexedEntry
meter_entry_get_next_index_field ctx entry =
    let (field, id) = next_field ctx.index_fds entry.raw_index entry.current_index_field_id in
    (field, record entry { current_index_field_id = id })

abbrev pub meter_ctx_init : MeterContext
meter_ctx_init = record {
  meter = closed_descriptor;
  index_fds = record { fields = []; decoded_with_btf = false };
  current_entry = meter_entry_init;
  previous_index = none;
}

unfoldable pub meter_ctx_free : {W : Type 0} → MeterContext → Proc W → MeterContext × Proc W
meter_ctx_free ctx s = (
  record {
    meter = record ctx.meter { fd = none };
    index_fds = record ctx.index_fds { fields = [] };
    current_entry = meter_entry_free ctx.current_entry;
    previous_index = none;
  },
  close_fds ctx.meter.fd s,
)

-- sizeof(nikss_meter_data_t): ten numbers of 8 bytes
abbrev pub data_size : ℕ
data_size = 80

module _ {W : Type 0} (files : FileCalls W) where
  abbrev Named : Type 0
  Named = Result (Unit {0}) × MeterContext × Proc W

  abbrev named : MeterContext → Result (Unit {0}) × MapDescriptor × Proc W → Named
  named ctx (ok u, md, s) =
      if ltb md.value_size data_size then (err einval, record ctx { meter = md }, s) else (
        ok tt,
        record ctx { meter = md; index_fds = setup_struct_field_descriptor_set_no_btf md.key_size },
        s,
      )
  named ctx (err e, md, s) = (err e, record ctx { meter = md }, s)
  named ctx (hangs, md, s) = (hangs, record ctx { meter = md }, s)

  -- without BTF, for a context that is initialised
  unfoldable pub meter_ctx_name : ℕ → String → MeterContext → Proc W → Named
  unfolding open_bpf_map
  meter_ctx_name pipeline_id name ctx s =
      named ctx (open_bpf_map files pipeline_id name ctx.meter s)

-- The data in memory, each number with its lowest byte first; the two times are not set by the code.
abbrev pub data_bytes : MeterData → ℕ × ℕ → Bytes
data_bytes d (time_p, time_c) =
    to_bytes 8 d.pir_period
    ++ (to_bytes 8 d.pir_unit_per_period
        ++ (to_bytes 8 d.cir_period
            ++ (to_bytes 8 d.cir_unit_per_period
                ++ (to_bytes 8 d.pbs
                    ++ (to_bytes 8 d.cbs
                        ++ (to_bytes 8 d.pbs_left
                            ++ (to_bytes 8 d.cbs_left
                                ++ (to_bytes 8 time_p ++ to_bytes 8 time_c))))))))

abbrev number_at : ℕ → Bytes → ℕ
number_at i bs = of_bytes (slice (8 * i) 8 bs)

abbrev pub data_from : Bytes → MeterData
data_from bs = record {
  pir_period = number_at 0 bs;
  pir_unit_per_period = number_at 1 bs;
  cir_period = number_at 2 bs;
  cir_unit_per_period = number_at 3 bs;
  pbs = number_at 4 bs;
  cbs = number_at 5 bs;
  pbs_left = number_at 6 bs;
  cbs_left = number_at 7 bs;
}

module _ {W : Type 0} (calls : MapCalls W Bytes Bytes) where
  abbrev pub lookup_in : Option ℕ → Bytes → W → Result Bytes
  lookup_in none key w = err ebadf
  lookup_in (some fd) key w = calls.lookup w fd key

  abbrev pub parsed :
      MeterContext → IndexedEntry → Bytes → Result Bytes → Result (Unit {0}) × IndexedEntry
  parsed ctx entry key (ok value) = (
    ok tt,
    record entry {
      raw_index = some (fix_struct_data_byte_order ctx.index_fds ctx.meter.key_size key);
      rates = convert_meter_data_to_entry (data_from value);
    },
  )
  parsed ctx entry key (err e) = (err e, record entry { raw_index = some key })
  parsed ctx entry key hangs = (hangs, record entry { raw_index = some key })

  abbrev pub get_at :
      MeterContext → IndexedEntry → Result Bytes → W → Result (Unit {0}) × IndexedEntry
  get_at ctx entry (ok key) w = parsed ctx entry key (lookup_in ctx.meter.fd key w)
  get_at ctx entry (err e) w = (err e, entry)
  get_at ctx entry hangs w = (hangs, entry)

  abbrev pub index_of : MeterContext → List Bytes → Result Bytes
  index_of ctx [] = err einval
  index_of ctx (f ∷ fs) = construct_struct_from_fields (f ∷ fs) ctx.index_fds ctx.meter.key_size

  unfoldable pub meter_entry_get :
      MeterContext → IndexedEntry → W → Result (Unit {0}) × IndexedEntry
  unfolding construct_struct_from_fields fix_struct_data_byte_order convert_meter_data_to_entry
  meter_entry_get ctx entry w = get_at ctx entry (index_of ctx entry.index_sfs) w

  abbrev shown :
      MeterContext → Result (Unit {0}) × IndexedEntry → Option IndexedEntry × MeterContext
  shown ctx (ok u, entry) = (some entry, record ctx { current_entry = entry })
  shown ctx (err e, entry) = (none, record ctx { current_entry = entry })
  shown ctx (hangs, entry) = (none, record ctx { current_entry = entry })

  -- Behind the last key the iteration begins anew.
  abbrev next_at : MeterContext → Result Bytes → W → Option IndexedEntry × MeterContext
  next_at ctx (ok key) w =
      let ctx' = record ctx { previous_index = some key } in
      shown ctx' (parsed ctx' ctx.current_entry key (lookup_in ctx.meter.fd key w))
  next_at ctx (err e) w = (none, record ctx { previous_index = none })
  next_at ctx hangs w = (none, record ctx { previous_index = none })

  abbrev next_in : MeterContext → Option ℕ → W → Option IndexedEntry × MeterContext
  next_in ctx none w = (none, record ctx { previous_index = none })
  next_in ctx (some fd) w = next_at ctx (calls.next_key w fd ctx.previous_index) w

  unfoldable pub meter_get_next : MeterContext → W → Option IndexedEntry × MeterContext
  unfolding fix_struct_data_byte_order convert_meter_data_to_entry
  meter_get_next ctx w = next_in ctx ctx.meter.fd w

  abbrev pub Accessed : Type 0
  Accessed = (Result (Unit {0}) × IndexedEntry) × Proc W

  abbrev pub change_in : (W → ℕ → Result W) → Option ℕ → Exec W (Unit {0})
  change_in change none s = (err ebadf, s)
  change_in change (some fd) s = command (λ w. change w fd) s

  abbrev pub update_at : MeterContext → IndexedEntry → Bytes → Result Bytes → Proc W → Accessed
  update_at ctx entry value (ok key) s =
      let (r, s') = change_in (λ w fd. calls.update w fd key value any) ctx.meter.fd s in
      ((r, record entry { raw_index = some key }), s')
  update_at ctx entry value (err e) s = ((err e, entry), s)
  update_at ctx entry value hangs s = ((hangs, entry), s)

  -- `none` is a conversion that is undefined in C, of which nothing is said.
  abbrev pub update_to :
      MeterContext → IndexedEntry → ℕ × ℕ → Option MeterData → List Bytes → Proc W → Accessed
  update_to ctx entry times d [] s = ((err einval, entry), s)
  update_to ctx entry times none (f ∷ fs) s = ((hangs, entry), s)
  update_to ctx entry times (some d) (f ∷ fs) s =
      update_at ctx entry (copy_at 0 (data_bytes d times) (zeros ctx.meter.value_size))
        (index_of ctx (f ∷ fs)) s

  -- `times` is what the stack holds where the two times of the data are.
  unfoldable pub meter_entry_update : ℕ × ℕ → MeterContext → IndexedEntry → Proc W → Accessed
  unfolding construct_struct_from_fields convert_meter_entry_to_data
  meter_entry_update times ctx entry s =
      update_to ctx entry times (convert_meter_entry_to_data entry.rates) entry.index_sfs s

  abbrev delete_at : MeterContext → IndexedEntry → Result Bytes → Proc W → Accessed
  delete_at ctx entry (ok key) s =
      let (r, s') = change_in (λ w fd. calls.delete w fd key) ctx.meter.fd s in ((r, entry), s')
  delete_at ctx entry (err e) s = ((err e, entry), s)
  delete_at ctx entry hangs s = ((hangs, entry), s)

  abbrev reset_at : ℕ × ℕ → ℕ → MeterContext → IndexedEntry → List Bytes → Proc W → Accessed
  reset_at times fuel ctx entry [] s =
      let (r, s') = delete_all_map_entries calls (zeros ctx.meter.value_size) fuel ctx.meter s in
      ((r, entry), s')
  reset_at times fuel ctx entry (f ∷ fs) s =
      let zero_rates = meter_entry_data entry no_rates in
      if is_array ctx.meter.type
      then update_to ctx zero_rates times (convert_meter_entry_to_data no_rates) (f ∷ fs) s
      else delete_at ctx entry (index_of ctx (f ∷ fs)) s

  -- The fuel bounds the deletion of all entries.
  unfoldable pub meter_entry_reset : ℕ × ℕ → ℕ → MeterContext → IndexedEntry → Proc W → Accessed
  unfolding delete_all_map_entries clear_from construct_struct_from_fields
      convert_meter_entry_to_data
  meter_entry_reset times fuel ctx entry s = reset_at times fuel ctx entry entry.index_sfs s
