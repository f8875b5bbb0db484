-- ===== src/Direct/Meter.antt =====
-- lib/nikss_direct_meter.c: the meters of the entries of a table, for pointers that are not null.
use Prim.Native.String.{String}
use nikss.Base.{
  ℕ, ◌+◌, ◌≡◌, ◌≢◌, ◌∙◌, refl, ap, Bool, true, false, Option, none, some, List, [], ◌∷◌, ◌++◌,
  get_elem?,
}
use nikss.Bpf.Types.{Result, ok, err, enoent}
use nikss.Meter.Rate.{MeterEntry}
use nikss.Meter.Access.{no_rates}
use nikss.Direct.Found.{find_name}
use nikss.Direct.ByIndex.{find_index, first_or, find_index-append, find_index-other}

-- `nikss_direct_meter_entry_t`, whose meter has no index
pub record DirectMeterEntry : Type 0 where
  pub meter : MeterEntry
  pub meter_idx : ℕ

pub record DirectMeterContext : Type 0 where
  pub name : Option String
  pub meter_size : ℕ
  pub meter_offset : ℕ
  pub meter_idx : ℕ
  pub mem_can_be_freed : Bool

-- the part of `nikss_table_entry_t` for its direct meters, less the context that its iterator returns
pub record EntryMeters : Type 0 where
  pub direct_meters : List DirectMeterEntry
  pub current_direct_meter_ctx_id : ℕ

abbrev pub direct_meter_ctx_init : DirectMeterContext
direct_meter_ctx_init = record {
  name = none;
  meter_size = 0;
  meter_offset = 0;
  meter_idx = 0;
  mem_can_be_freed = true;
}

abbrev pub direct_meter_ctx_free : DirectMeterContext → DirectMeterContext
direct_meter_ctx_free dm_ctx = record dm_ctx { name = none }

-- The name is not taken over.
abbrev named :
    DirectMeterContext → Option (ℕ × DirectMeterContext) → Result (Unit {0}) × DirectMeterContext
named dm_ctx none = (err enoent, dm_ctx)
named dm_ctx (some (i, c)) = (
  ok tt,
  record dm_ctx { meter_offset = c.meter_offset; meter_size = c.meter_size; meter_idx = i },
)

-- `contexts` are the direct meters of the table.
unfoldable pub direct_meter_ctx_name :
    DirectMeterContext → List DirectMeterContext → String → Result (Unit {0}) × DirectMeterContext
unfolding find_name
direct_meter_ctx_name dm_ctx contexts dm_name =
    named dm_ctx (find_name (λ c. c.name) dm_name 0 contexts)

abbrev pub table_entry_set_direct_meter :
    EntryMeters → DirectMeterContext → MeterEntry → EntryMeters
table_entry_set_direct_meter entry dm_ctx dm = record entry {
  direct_meters = entry.direct_meters ++ (record { meter = dm; meter_idx = dm_ctx.meter_idx }) ∷ [];
}

abbrev next_of : EntryMeters → Option DirectMeterContext → Option DirectMeterContext × EntryMeters
next_of entry none = (none, record entry { current_direct_meter_ctx_id = 0 })
next_of entry (some c) = (
  some (record c { mem_can_be_freed = false }),
  record entry { current_direct_meter_ctx_id = entry.current_direct_meter_ctx_id + 1 },
)

unfoldable pub direct_meter_get_next_ctx :
    List DirectMeterContext → EntryMeters → Option DirectMeterContext × EntryMeters
direct_meter_get_next_ctx contexts entry =
    next_of entry (get_elem? contexts entry.current_direct_meter_ctx_id)

abbrev pub direct_meter_get_name : DirectMeterContext → Option String
direct_meter_get_name dm_ctx = dm_ctx.name

-- The meter of the caller is initialised first.
abbrev meter_of : Option DirectMeterEntry → Result (Unit {0}) × MeterEntry
meter_of none = (err enoent, no_rates)
meter_of (some e) = (ok tt, e.meter)

unfoldable pub direct_meter_get_entry :
    DirectMeterContext → EntryMeters → Result (Unit {0}) × MeterEntry
unfolding find_index
direct_meter_get_entry dm_ctx entry =
    meter_of (find_index (λ e. e.meter_idx) dm_ctx.meter_idx entry.direct_meters)

-- what is read where a meter may have been set before
abbrev pub set_before : Result (Unit {0}) × MeterEntry → MeterEntry → Result (Unit {0}) × MeterEntry
set_before (ok u, old) dm = (ok tt, old)
set_before (err e, none_yet) dm = (ok tt, dm)
set_before (Result.hangs, none_yet) dm = (ok tt, dm)

first-set_before :
    (o : Option DirectMeterEntry) (e : DirectMeterEntry)
    → meter_of (first_or (λ d. d.meter_idx) o e) ≡ set_before (meter_of o) e.meter
first-set_before none e = refl
first-set_before (some old) e = refl

-- the same as for direct counters
pub direct_meter_get_entry-set_direct_meter :
    (entry : EntryMeters) (dm_ctx other : DirectMeterContext) (dm : MeterEntry)
    → other.meter_idx ≢ dm_ctx.meter_idx
    → (direct_meter_get_entry dm_ctx (table_entry_set_direct_meter entry dm_ctx dm)
        ≡ set_before (direct_meter_get_entry dm_ctx entry) dm)
      × (direct_meter_get_entry other (table_entry_set_direct_meter entry dm_ctx dm)
          ≡ direct_meter_get_entry other entry)
unfolding direct_meter_get_entry
direct_meter_get_entry-set_direct_meter entry dm_ctx other dm ne =
    let e : DirectMeterEntry = record { meter = dm; meter_idx = dm_ctx.meter_idx } in
    (
      ap meter_of (find_index-append (λ d. d.meter_idx) e entry.direct_meters)
          ∙ first-set_before (find_index (λ d. d.meter_idx) dm_ctx.meter_idx entry.direct_meters) e,
      ap meter_of (find_index-other (λ d. d.meter_idx) other.meter_idx e entry.direct_meters ne),
    )
