-- ===== src/Meter/Stored.antt =====
-- `nikss_meter_entry_update` and `nikss_meter_entry_get` of lib/nikss_meter.c on the contents of the
-- map.
use nikss.Base.{
  ℕ, ◌-◌, ◌^◌, ◌<◌, ◌≤◌, ◌≡◌, ◌∙◌, refl, ap, Option, some, List, ◌∷◌, ◌++◌, Eq, beq_refl, nat_refl,
}
use nikss.Bpf.Types.{MapCalls, UpdateLaws, ok, any}
use nikss.Bpf.Exec.{Proc}
use nikss.Struct.Buffer.{Bytes}
use nikss.Struct.Constructed.{zeros, copy_at-zeros}
use nikss.Struct.Fields.{copy_at, fix_struct_data_byte_order}
use nikss.Counter.Value.{of_bytes-to_bytes}
use nikss.Meter.Rate.{MeterData, convert_meter_data_to_entry, convert_meter_entry_to_data}
use nikss.Meter.Access.{
  IndexedEntry, MeterContext, data_size, data_bytes, data_from, index_of, update_to, update_at,
  change_in, meter_entry_update, meter_entry_get, get_at, parsed, lookup_in,
}

-- The numbers of the data have at most 64 bits.
pub record Fits64 (d : MeterData) : Type 0 where
  pub pir_period : d.pir_period < 2 ^ 64
  pub pir_unit_per_period : d.pir_unit_per_period < 2 ^ 64
  pub cir_period : d.cir_period < 2 ^ 64
  pub cir_unit_per_period : d.cir_unit_per_period < 2 ^ 64
  pub pbs : d.pbs < 2 ^ 64
  pub cbs : d.cbs < 2 ^ 64
  pub pbs_left : d.pbs_left < 2 ^ 64
  pub cbs_left : d.cbs_left < 2 ^ 64

data_from-data_bytes :
    (d : MeterData) (times : ℕ × ℕ) (rest : Bytes)
    → Fits64 d
    → data_from (data_bytes d times ++ rest) ≡ d
data_from-data_bytes d times rest fits =
    rw
      (
        of_bytes-to_bytes 8 d.pir_period fits.pir_period,
        of_bytes-to_bytes 8 d.pir_unit_per_period fits.pir_unit_per_period,
        of_bytes-to_bytes 8 d.cir_period fits.cir_period,
        of_bytes-to_bytes 8 d.cir_unit_per_period fits.cir_unit_per_period,
        of_bytes-to_bytes 8 d.pbs fits.pbs,
        of_bytes-to_bytes 8 d.cbs fits.cbs,
        of_bytes-to_bytes 8 d.pbs_left fits.pbs_left,
        of_bytes-to_bytes 8 d.cbs_left fits.cbs_left,
      )
      refl

module _ {W : Type 0} ⦃key_eq : Eq Bytes⦄ (calls : MapCalls W Bytes Bytes)
    (contents : W → ℕ → Bytes → Option Bytes) (laws : UpdateLaws calls contents) (times : ℕ × ℕ)
    (ctx : MeterContext) (entry reader : IndexedEntry) (fd : ℕ) (s : Proc W) (f : Bytes)
    (fs : List Bytes) (key : Bytes) (d : MeterData) (opened : ctx.meter.fd ≡ some fd)
    (sized : data_size ≤ ctx.meter.value_size) (indexed : entry.index_sfs ≡ f ∷ fs)
    (same : reader.index_sfs ≡ f ∷ fs) (built : index_of calls ctx (f ∷ fs) ≡ ok key)
    (converted : convert_meter_entry_to_data entry.rates ≡ some d) (fits : Fits64 d) where
  abbrev written : Bytes
  written = copy_at 0 (data_bytes d times) (zeros ctx.meter.value_size)

  -- the data is read back from the value
  data_from-written : data_from written ≡ d
  data_from-written =
      ap data_from (copy_at-zeros (data_bytes d times) ctx.meter.value_size sized)
      ∙ data_from-data_bytes d times (zeros (ctx.meter.value_size - data_size)) fits

  module _ (w : W) (accepted : calls.update s.world fd key written any ≡ ok w) where
    stored : calls.lookup w fd key ≡ ok written
    stored =
        laws.lookup_find w fd key
        ∙ rw
            (
              laws.update_find s.world w fd key written any fd key accepted,
              nat_refl fd,
              beq_refl key,
            )
            refl

    update_lem :
        meter_entry_update calls times ctx entry s
        ≡ ((ok tt, record entry { raw_index = some key }), record s { world = w })
    unfolding meter_entry_update
    update_lem =
        ap (λ o. update_to calls ctx entry times o entry.index_sfs s) converted
        ∙ ap (λ xs. update_to calls ctx entry times (some d) xs s) indexed
        ∙ ap (λ k. update_at calls ctx entry written k s) built
        ∙ ap
            (λ o. (
              (
                (change_in calls (λ v g. calls.update v g key written any) o s).0,
                record entry { raw_index = some key },
              ),
              (change_in calls (λ v g. calls.update v g key written any) o s).1,
            ))
            opened
        ∙ rw accepted refl

    -- Let a meter be open with room for its data, let a key be made up of the index of an entry, let
    -- the rates and bursts of the entry be converted to data whose numbers have at most 64 bits, and
    -- let the map accept them. Then the update succeeds, and what is read at an entry with the same
    -- index is what that data is converted back to, whatever the two times on the stack are.
    pub meter_entry_get-meter_entry_update :
        (meter_entry_update calls times ctx entry s
          ≡ ((ok tt, record entry { raw_index = some key }), record s { world = w }))
        × (meter_entry_get calls ctx reader w ≡ (
          ok tt,
          record reader {
            raw_index = some (fix_struct_data_byte_order ctx.index_fds ctx.meter.key_size key);
            rates = convert_meter_data_to_entry d;
          },
        ))
    unfolding meter_entry_get
    meter_entry_get-meter_entry_update = (
      update_lem,
      ap (λ xs. get_at calls ctx reader (index_of calls ctx xs) w) same
          ∙ ap (λ k. get_at calls ctx reader k w) built
          ∙ ap (λ o. parsed calls ctx reader key (lookup_in calls o key w)) opened
          ∙ ap (parsed calls ctx reader key) stored
          ∙ ap
              (λ x. (
                ok tt,
                record reader {
                  raw_index =
                      some (fix_struct_data_byte_order ctx.index_fds ctx.meter.key_size key);
                  rates = convert_meter_data_to_entry x;
                },
              ))
              data_from-written,
    )
