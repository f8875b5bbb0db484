-- ===== src/Direct/Counter.antt =====
-- lib/nikss_direct_counter.c: the counters of the entries of a table, for pointers that are not null.
use Prim.Native.String.{String}
use nikss.Base.{
  ℕ, ◌+◌, ◌-◌, ◌^◌, ◌≡◌, ◌≢◌, ◌∙◌, refl, ap, Bool, true, false, Option, none, some, List, [], ◌∷◌,
  ◌++◌, get_elem?,
}
use nikss.Bpf.Types.{Result, ok, err, enoent}
use nikss.Counter.Value.{CounterType, CounterValue}
use nikss.Direct.Found.{find_name}
use nikss.Direct.ByIndex.{find_index, first_or, find_index-append, find_index-other}

-- `nikss_direct_counter_entry_t`, whose counter has no key
pub record DirectCounterEntry : Type 0 where
  pub counter : CounterValue
  pub counter_idx : ℕ

pub record DirectCounterContext : Type 0 where
  pub name : Option String
  pub counter_type : CounterType
  pub counter_size : ℕ
  pub counter_offset : ℕ
  pub counter_idx : ℕ
  pub mem_can_be_freed : Bool

-- the part of `nikss_table_entry_t` for its direct counters, less the context that its iterator
-- returns
pub record EntryCounters : Type 0 where
  pub direct_counters : List DirectCounterEntry
  pub current_direct_counter_ctx_id : ℕ

-- The index is -1 as an unsigned number.
abbrev pub direct_counter_ctx_init : DirectCounterContext
direct_counter_ctx_init = record {
  name = none;
  counter_type = CounterType.unknown;
  counter_size = 0;
  counter_offset = 0;
  counter_idx = 2 ^ 32 - 1;
  mem_can_be_freed = true;
}

abbrev pub direct_counter_ctx_free : DirectCounterContext → DirectCounterContext
direct_counter_ctx_free dc_ctx = record dc_ctx { name = none }

abbrev named :
    DirectCounterContext
    → Option (ℕ × DirectCounterContext)
    → Result (Unit {0}) × DirectCounterContext
named dc_ctx none = (err enoent, dc_ctx)
named dc_ctx (some (i, c)) = (
  ok tt,
  record {
    name = c.name;
    counter_type = c.counter_type;
    counter_size = c.counter_size;
    counter_offset = c.counter_offset;
    counter_idx = i;
    mem_can_be_freed = false;
  },
)

-- `contexts` are the direct counters of the table.
unfoldable pub direct_counter_ctx_name :
    DirectCounterContext
    → List DirectCounterContext
    → String
    → Result (Unit {0}) × DirectCounterContext
unfolding find_name
direct_counter_ctx_name dc_ctx contexts dc_name =
    named dc_ctx (find_name (λ c. c.name) dc_name 0 contexts)

abbrev pub table_entry_set_direct_counter :
    EntryCounters → DirectCounterContext → CounterValue → EntryCounters
table_entry_set_direct_counter entry dc_ctx dc = record entry {
  direct_counters =
      entry.direct_counters ++ (record { counter = dc; counter_idx = dc_ctx.counter_idx }) ∷ [];
}

abbrev next_of :
    EntryCounters → Option DirectCounterContext → Option DirectCounterContext × EntryCounters
next_of entry none = (none, record entry { current_direct_counter_ctx_id = 0 })
next_of entry (some c) = (
  some (record c { mem_can_be_freed = false }),
  record entry { current_direct_counter_ctx_id = entry.current_direct_counter_ctx_id + 1 },
)

unfoldable pub direct_counter_get_next_ctx :
    List DirectCounterContext → EntryCounters → Option DirectCounterContext × EntryCounters
direct_counter_get_next_ctx contexts entry =
    next_of entry (get_elem? contexts entry.current_direct_counter_ctx_id)

abbrev pub direct_counter_get_type : DirectCounterContext → CounterType
direct_counter_get_type dc_ctx = dc_ctx.counter_type

abbrev pub direct_counter_get_name : DirectCounterContext → Option String
direct_counter_get_name dc_ctx = dc_ctx.name

-- The counter of the caller is initialised first.
abbrev counter_of : Option DirectCounterEntry → Result (Unit {0}) × CounterValue
counter_of none = (err enoent, record { bytes = 0; packets = 0 })
counter_of (some e) = (ok tt, e.counter)

unfoldable pub direct_counter_get_entry :
    DirectCounterContext → EntryCounters → Result (Unit {0}) × CounterValue
unfolding find_index
direct_counter_get_entry dc_ctx entry =
    counter_of (find_index (λ e. e.counter_idx) dc_ctx.counter_idx entry.direct_counters)

-- what is read where a counter may have been set before
abbrev pub set_before :
    Result (Unit {0}) × CounterValue → CounterValue → Result (Unit {0}) × CounterValue
set_before (ok u, old) dc = (ok tt, old)
set_before (err e, none_yet) dc = (ok tt, dc)
set_before (Result.hangs, none_yet) dc = (ok tt, dc)

first-set_before :
    (o : Option DirectCounterEntry) (e : DirectCounterEntry)
    → counter_of (first_or (λ d. d.counter_idx) o e) ≡ set_before (counter_of o) e.counter
first-set_before none e = refl
first-set_before (some old) e = refl

-- After a direct counter of an entry has been set, direct_counter_get_entry gives for its index the
-- numbers that were set first: those that it gave before, and the new ones only if it found none. For
-- another index it gives the same as before. This is about the entry that is held in memory only.
pub direct_counter_get_entry-set_direct_counter :
    (entry : EntryCounters) (dc_ctx other : DirectCounterContext) (dc : CounterValue)
    → other.counter_idx ≢ dc_ctx.counter_idx
    → (direct_counter_get_entry dc_ctx (table_entry_set_direct_counter entry dc_ctx dc)
        ≡ set_before (direct_counter_get_entry dc_ctx entry) dc)
      × (direct_counter_get_entry other (table_entry_set_direct_counter entry dc_ctx dc)
          ≡ direct_counter_get_entry other entry)
unfolding direct_counter_get_entry
direct_counter_get_entry-set_direct_counter entry dc_ctx other dc ne =
    let e : DirectCounterEntry = record { counter = dc; counter_idx = dc_ctx.counter_idx } in
    (
      ap counter_of (find_index-append (λ d. d.counter_idx) e entry.direct_counters)
          ∙ first-set_before
              (find_index (λ d. d.counter_idx) dc_ctx.counter_idx entry.direct_counters) e,
      ap counter_of
          (find_index-other (λ d. d.counter_idx) other.counter_idx e entry.direct_counters ne),
    )
