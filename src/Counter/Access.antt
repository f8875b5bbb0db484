-- ===== src/Counter/Access.antt =====
-- lib/nikss_counter.c: reading, setting and resetting counters, for a context and an entry that are
-- no null pointers. After a failure to make up the key the raw key counts as not written.
use nikss.Base.{ℕ, zero, suc, Bool, true, false, not, ◌&&◌, Option, none, some, List, [], ◌∷◌}
use nikss.Bpf.Types.{Result, ok, err, hangs, MapCalls, MapDescriptor, MapType, any, einval, ebadf}
use nikss.Bpf.Exec.{Proc, Exec, command}
use nikss.Table.Clear.{is_array}
use nikss.Struct.Buffer.{Bytes}
use nikss.Struct.Fields.{
  DescriptorSet, construct_struct_from_fields, fix_struct_data_byte_order, fix_fields,
}
use nikss.Counter.Value.{
  CounterType, CounterValue, convert_counter_data_to_entry, convert_counter_entry_to_data,
  is_zero_counter_value,
}

-- `nikss_counter_entry_t`, less the position among the fields of its key
pub record CounterEntry : Type 0 where
  pub entry_key : List Bytes
  pub raw_key : Option Bytes
  pub value : CounterValue

-- `nikss_counter_context_t`, less its BTF and the entry that the iteration returns
pub record CounterContext : Type 0 where
  pub counter : MapDescriptor
  pub counter_type : CounterType
  pub key_fds : DescriptorSet
  pub prev_entry_key : Option Bytes

abbrev pub is_hash : MapType → Bool
is_hash MapType.hash = true
is_hash MapType.array = false
is_hash MapType.queue = false
is_hash MapType.array_of_maps = false
is_hash MapType.hash_of_maps = false
is_hash MapType.lpm_trie = false
is_hash MapType.other = false

module _ {W : Type 0} (calls : MapCalls W Bytes Bytes) where
  abbrev pub change : Bool → ℕ → Bytes → Bytes → W → Result W
  change true fd encoded_value key w = calls.delete w fd key
  change false fd encoded_value key w = calls.update w fd key encoded_value any

  -- what the loop does after a change: it goes on at the next key, or stops at an error
  abbrev pub next_or_stop :
      ℕ → Bytes → (Result Bytes → W → Result (Unit {0}) × W) → W → Result W → Result (Unit {0}) × W
  next_or_stop fd key rest w (ok w') = rest (calls.next_key w' fd (some key)) w'
  next_or_stop fd key rest w (err e) = (err e, w)
  next_or_stop fd key rest w hangs = (hangs, w)

  -- The `do … while` loop, where `next` is what bpf_map_get_next_key has returned.
  unfoldable pub set_from : ℕ → Bool → ℕ → Bytes → Result Bytes → W → Result (Unit {0}) × W
  set_from zero remove fd encoded_value next w = (hangs, w)
  set_from (suc fuel) remove fd encoded_value (ok key) w =
      next_or_stop fd key (set_from fuel remove fd encoded_value) w
        (change remove fd encoded_value key w)
  set_from (suc fuel) remove fd encoded_value (err e) w = (ok tt, w)
  set_from (suc fuel) remove fd encoded_value hangs w = (hangs, w)

  abbrev settled : Result (Unit {0}) × W → Proc W → Result (Unit {0}) × Proc W
  settled (r, w) s = (r, record s { world = w })

  -- A closed map has no next key, so that nothing is done.
  abbrev pub set_all_in : ℕ → Bool → Bytes → Option ℕ → Exec W (Unit {0})
  set_all_in fuel remove encoded_value none s = (ok tt, s)
  set_all_in fuel remove encoded_value (some fd) s =
      settled (set_from fuel remove fd encoded_value (calls.next_key s.world fd none) s.world) s

  unfoldable pub set_all_counters : ℕ → CounterContext → Bytes → Bool → Exec W (Unit {0})
  set_all_counters fuel ctx encoded_value remove_entry_allowed s =
      set_all_in fuel
        (is_zero_counter_value encoded_value
          && not (is_array ctx.counter.type)
          && remove_entry_allowed)
        encoded_value ctx.counter.fd s

  -- Each function gives back the entry too, whose raw key and values it writes.
  abbrev pub Accessed : Type 0
  Accessed = (Result (Unit {0}) × CounterEntry) × Proc W

  abbrev pub change_in : Bool → Bytes → Bytes → Option ℕ → Exec W (Unit {0})
  change_in remove value key none s = (err ebadf, s)
  change_in remove value key (some fd) s = command (change remove fd value key) s

  abbrev pub set_at_key :
      CounterContext → CounterEntry → Bool → Bytes → Result Bytes → Proc W → Accessed
  set_at_key ctx entry remove_entry_allowed value (ok key) s =
      let (r, s') =
        change_in (remove_entry_allowed && is_hash ctx.counter.type && is_zero_counter_value value)
          value key ctx.counter.fd s in
      ((r, record entry { raw_key = some key }), s')
  set_at_key ctx entry remove_entry_allowed value (err e) s = ((err e, entry), s)
  set_at_key ctx entry remove_entry_allowed value hangs s = ((hangs, entry), s)

  abbrev pub set_value :
      ℕ → CounterContext → CounterEntry → Bool → List Bytes → Option Bytes → Proc W → Accessed
  set_value fuel ctx entry remove_entry_allowed key none s = ((err einval, entry), s)
  set_value fuel ctx entry remove_entry_allowed [] (some value) s =
      let (r, s') = set_all_counters fuel ctx value remove_entry_allowed s in ((r, entry), s')
  set_value fuel ctx entry remove_entry_allowed (f ∷ fs) (some value) s =
      set_at_key ctx entry remove_entry_allowed value
        (construct_struct_from_fields (f ∷ fs) ctx.key_fds ctx.counter.key_size) s

  unfoldable pub do_counter_set : ℕ → CounterContext → CounterEntry → Bool → Proc W → Accessed
  unfolding set_all_counters set_from is_zero_counter_value
  do_counter_set fuel ctx entry remove_entry_allowed s =
      set_value fuel ctx entry remove_entry_allowed entry.entry_key
        (convert_counter_entry_to_data ctx.counter_type ctx.counter.value_size entry.value) s

  unfoldable pub counter_set : ℕ → CounterContext → CounterEntry → Proc W → Accessed
  unfolding do_counter_set
  counter_set fuel ctx entry s = do_counter_set fuel ctx entry false s

  unfoldable pub counter_reset : ℕ → CounterContext → CounterEntry → Proc W → Accessed
  unfolding do_counter_set
  counter_reset fuel ctx entry s =
      do_counter_set fuel ctx (record entry { value = record { bytes = 0; packets = 0 } }) true s

  abbrev pub lookup_in : Option ℕ → Bytes → W → Result Bytes
  lookup_in none key w = err ebadf
  lookup_in (some fd) key w = calls.lookup w fd key

  -- The raw key is brought into the byte order of its fields once the value is read.
  abbrev pub parse_value :
      CounterContext → CounterEntry → Bytes → Result Bytes → Result (Unit {0}) × CounterEntry
  parse_value ctx entry key (ok value) = (
    ok tt,
    record entry {
      raw_key = some (fix_struct_data_byte_order ctx.key_fds ctx.counter.key_size key);
      value = convert_counter_data_to_entry value ctx.counter.value_size ctx.counter_type;
    },
  )
  parse_value ctx entry key (err e) = (err e, record entry { raw_key = some key })
  parse_value ctx entry key hangs = (hangs, entry)

  unfoldable pub read_and_parse_counter_value :
      CounterContext → CounterEntry → Bytes → W → Result (Unit {0}) × CounterEntry
  unfolding fix_struct_data_byte_order fix_fields convert_counter_data_to_entry
  read_and_parse_counter_value ctx entry key w =
      parse_value ctx entry key (lookup_in ctx.counter.fd key w)

  abbrev pub get_at_key :
      CounterContext → CounterEntry → Result Bytes → W → Result (Unit {0}) × CounterEntry
  get_at_key ctx entry (ok key) w = read_and_parse_counter_value ctx entry key w
  get_at_key ctx entry (err e) w = (err e, entry)
  get_at_key ctx entry hangs w = (hangs, entry)

  unfoldable pub counter_get : CounterContext → CounterEntry → W → Result (Unit {0}) × CounterEntry
  unfolding read_and_parse_counter_value construct_struct_from_fields
  counter_get ctx entry w =
      get_at_key ctx entry
        (construct_struct_from_fields entry.entry_key ctx.key_fds ctx.counter.key_size) w

  abbrev shown :
      CounterContext → Result (Unit {0}) × CounterEntry → Option CounterEntry × CounterContext
  shown ctx (ok u, entry) = (some entry, ctx)
  shown ctx (err e, entry) = (none, ctx)
  shown ctx (hangs, entry) = (none, ctx)

  abbrev next_of :
      CounterContext → CounterEntry → Result Bytes → W → Option CounterEntry × CounterContext
  next_of ctx entry (ok key) w =
      let ctx' = record ctx { prev_entry_key = some key } in
      shown ctx' (read_and_parse_counter_value ctx' entry key w)
  next_of ctx entry (err e) w = (none, record ctx { prev_entry_key = none })
  next_of ctx entry hangs w = (none, record ctx { prev_entry_key = none })

  abbrev next_in :
      CounterContext → CounterEntry → Option ℕ → W → Option CounterEntry × CounterContext
  next_in ctx entry none w = (none, record ctx { prev_entry_key = none })
  next_in ctx entry (some fd) w = next_of ctx entry (calls.next_key w fd ctx.prev_entry_key) w

  -- `entry` is the one that the context owns, as it was left.
  unfoldable pub counter_get_next :
      CounterContext → CounterEntry → W → Option CounterEntry × CounterContext
  unfolding read_and_parse_counter_value
  counter_get_next ctx entry w = next_in ctx entry ctx.counter.fd w
