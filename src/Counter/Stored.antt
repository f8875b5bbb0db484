-- ===== src/Counter/Stored.antt =====
-- `nikss_counter_set`, `nikss_counter_get` and `nikss_counter_reset` of lib/nikss_counter.c on the
-- contents of the map.
use nikss.Base.{
  ℕ, zero, suc, ◌<◌, ◌≡◌, ◌∙◌, sym, refl, ap, true, false, not, ◌&&◌, Option, some, List, [], ◌∷◌,
  length, Eq, beq_refl, nat_refl, arith, ◌++◌, ◌/◌, ◌==◌,
}
use nikss.Bpf.Types.{MapCalls, UpdateLaws, Result, ok, any}
use nikss.Bpf.Exec.{Proc}
use nikss.Table.Emptied.{KeyLaws, first_of, is_listed, without, is_listed-without, length-without}
use nikss.Table.Clear.{is_array}
use nikss.Struct.Buffer.{Bytes}
use nikss.Struct.Fields.{construct_struct_from_fields}
use nikss.Counter.Value.{
  CounterType, CounterValue, convert_counter_entry_to_data, kept, range, number_size,
  is_zero_counter_value, to_bytes, convert_counter_data_to_entry-convert_counter_entry_to_data,
}
use nikss.Counter.Access.{
  CounterEntry, CounterContext, set_from, set_all_counters, set_all_in, set_value, set_at_key,
  change_in, do_counter_set, counter_set, counter_reset, counter_get, get_at_key, lookup_in,
  parse_value, read_and_parse_counter_value, Accessed,
}

module _ {W : Type 0} ⦃key_eq : Eq Bytes⦄ (calls : MapCalls W Bytes Bytes)
    (contents : W → ℕ → Bytes → Option Bytes) (laws : UpdateLaws calls contents) where
  -- what is at a key after a write there
  written :
      (w w' : W) (fd : ℕ) (key value : Bytes)
      → calls.update w fd key value any ≡ ok w'
      → calls.lookup w' fd key ≡ ok value
  written w w' fd key value h =
      laws.lookup_find w' fd key
      ∙ rw (laws.update_find w w' fd key value any fd key h, nat_refl fd, beq_refl key) refl

  module _ (ctx : CounterContext) (entry : CounterEntry) (fd fuel : ℕ) (s : Proc W) (w : W)
      (f : Bytes) (fs : List Bytes) (key value : Bytes) (opened : ctx.counter.fd ≡ some fd)
      (keyed : entry.entry_key ≡ f ∷ fs)
      (built : construct_struct_from_fields (f ∷ fs) ctx.key_fds ctx.counter.key_size ≡ ok key)
      (encoded : convert_counter_entry_to_data ctx.counter_type ctx.counter.value_size entry.value
        ≡ some value)
      (accepted : calls.update s.world fd key value any ≡ ok w) where
    counter_set_lem :
        counter_set calls fuel ctx entry s
        ≡ ((ok tt, record entry { raw_key = some key }), record s { world = w })
    unfolding counter_set do_counter_set
    counter_set_lem =
        ap
          (λ k.
            set_value calls fuel ctx entry false k
              (convert_counter_entry_to_data ctx.counter_type ctx.counter.value_size entry.value) s)
          keyed
        ∙ ap (λ v. set_value calls fuel ctx entry false (f ∷ fs) v s) encoded
        ∙ ap (λ k. set_at_key calls ctx entry false value k s) built
        ∙ ap
            (λ o. (
              ((change_in calls false value key o s).0, record entry { raw_key = some key }),
              (change_in calls false value key o s).1,
            ))
            opened
        ∙ rw accepted refl

    -- Let the map of a counter be open, let the fields of the entry make up a key and its numbers a
    -- value that the map accepts, and let each number fit into its bytes. Then setting the entry
    -- succeeds, and reading it back succeeds and gives the numbers that this type of counters keeps.
    pub counter_get-counter_set :
        entry.value.bytes < range (number_size ctx.counter_type ctx.counter.value_size)
        → entry.value.packets < range (number_size ctx.counter_type ctx.counter.value_size)
        → (e : CounterEntry) × (counter_set calls fuel ctx entry s
            ≡ ((ok tt, e), record s { world = w }))
          × ((counter_get calls ctx e w).0 ≡ ok tt)
          × ((counter_get calls ctx e w).1.value ≡ kept ctx.counter_type entry.value)
    unfolding counter_get read_and_parse_counter_value
    counter_get-counter_set fb fp =
        let e : CounterEntry = record entry { raw_key = some key } in
        let run : get_at_key calls ctx e
              (construct_struct_from_fields e.entry_key ctx.key_fds ctx.counter.key_size) w
            ≡ parse_value calls ctx e key (ok value) =
          ap
            (λ k.
              get_at_key calls ctx e
                (construct_struct_from_fields k ctx.key_fds ctx.counter.key_size) w)
            keyed
          ∙ ap (λ k. get_at_key calls ctx e k w) built
          ∙ ap (λ o. parse_value calls ctx e key (lookup_in calls o key w)) opened
          ∙ ap (parse_value calls ctx e key) (written s.world w fd key value accepted) in
        (
          e,
          counter_set_lem,
          ap (λ r. r.0) run,
          ap (λ r. r.1.value) run
              ∙ convert_counter_data_to_entry-convert_counter_entry_to_data ctx.counter_type
                  ctx.counter.value_size entry.value value fb fp encoded,
        )

is_zero-to_bytes : (n : ℕ) → is_zero_counter_value (to_bytes n 0) ≡ true
unfolding is_zero_counter_value
is_zero-to_bytes zero = refl
is_zero-to_bytes (suc n) = is_zero-to_bytes n

is_zero-append :
    (xs ys : Bytes)
    → is_zero_counter_value xs ≡ true
    → is_zero_counter_value ys ≡ true
    → is_zero_counter_value (xs ++ ys) ≡ true
unfolding is_zero_counter_value
is_zero-append [] ys h h' = h'
is_zero-append (x ∷ xs) ys h h' =
    let head : (x == 0) ≡ true = ground (arith, h) in
    let tail : is_zero_counter_value xs ≡ true = ground (arith, h) in
    rw head (is_zero-append xs ys tail h')

abbrev pub nothing : CounterValue
nothing = record { bytes = 0; packets = 0 }

-- the value of a reset is zero bytes
reset_value :
    (type : CounterType) (size : ℕ) (value : Bytes)
    → convert_counter_entry_to_data type size nothing ≡ some value
    → is_zero_counter_value value ≡ true
unfolding convert_counter_entry_to_data
reset_value CounterType.unknown size value h = absurd (cc)
reset_value CounterType.bytes size value h =
    let same : to_bytes size 0 ≡ value = cc in
    ap is_zero_counter_value (sym same) ∙ is_zero-to_bytes size
reset_value CounterType.packets size value h =
    let same : to_bytes size 0 ≡ value = cc in
    ap is_zero_counter_value (sym same) ∙ is_zero-to_bytes size
reset_value CounterType.bytes_and_packets size value h =
    let same : to_bytes (size / 2) 0 ++ to_bytes (size / 2) 0 ≡ value = cc in
    ap is_zero_counter_value (sym same)
    ∙ is_zero-append (to_bytes (size / 2) 0) (to_bytes (size / 2) 0) (is_zero-to_bytes (size / 2))
        (is_zero-to_bytes (size / 2))

module _ {W : Type 0} ⦃e : Eq Bytes⦄ (calls : MapCalls W Bytes Bytes) (keys : W → ℕ → List Bytes)
    (laws : KeyLaws calls keys) (fd : ℕ) where
  set_from_lem :
      (fuel : ℕ) (value : Bytes) (ks : List Bytes) (w : W)
      → keys w fd ≡ ks
      → length ks < fuel
      → (w' : W) × (set_from calls fuel true fd value (first_of ks) w ≡ (ok tt, w'))
        × (keys w' fd ≡ [])
  unfolding set_from
  set_from_lem zero value ks w h lt = elim lt [ ]
  set_from_lem (suc fuel) value [] w h lt = (w, refl, h)
  set_from_lem (suc fuel) value (k ∷ ks) w h lt =
      let (w1, deleted, rest) = laws.delete_listed w fd k ks h in
      let rest' : keys w1 fd ≡ without k ks = rest ∙ ap (without k) h ∙ rw (beq_refl k) in
      let gone : is_listed k (keys w1 fd) ≡ false = rw rest' (is_listed-without k ks) in
      let (w', run, empty) =
        set_from_lem fuel value (without k ks) w1 rest' (omega (arith, length-without k ks)) in
      (w', rw (deleted, laws.next_restarts w1 fd k gone, rest') run, empty)

  abbrev given : CounterEntry → Result (Unit {0}) × Proc W → Accessed calls
  given entry (r, s) = ((r, entry), s)

  -- Let the map of a counter be open and no array, in a kernel whose iteration starts again at a key
  -- that is gone, and let its type be known. The reset of an entry without a key succeeds and leaves
  -- the map without keys; one round more than it has keys is enough.
  pub counter_reset-all :
      (ctx : CounterContext) (entry : CounterEntry) (fuel : ℕ) (s : Proc W) (value : Bytes)
      → ctx.counter.fd ≡ some fd
      → is_array ctx.counter.type ≡ false
      → entry.entry_key ≡ []
      → convert_counter_entry_to_data ctx.counter_type ctx.counter.value_size nothing ≡ some value
      → length (keys s.world fd) < fuel
      → (w' : W) × (counter_reset calls fuel ctx entry s
          ≡ ((ok tt, record entry { value = nothing }), record s { world = w' }))
        × (keys w' fd ≡ [])
  unfolding counter_reset do_counter_set set_all_counters
  counter_reset-all ctx entry fuel s value opened kind keyless encoded lt =
      let (w', run, empty) = set_from_lem fuel value (keys s.world fd) s.world refl lt in
      let zeroed : CounterEntry = record entry { value = nothing } in
      (
        w',
        ap
              (λ k.
                set_value calls fuel ctx zeroed true k
                  (convert_counter_entry_to_data ctx.counter_type ctx.counter.value_size nothing) s)
              keyless
            ∙ ap (λ v. set_value calls fuel ctx zeroed true [] v s) encoded
            ∙ ap
                (λ b. given zeroed (
                  set_all_in calls fuel (b && not (is_array ctx.counter.type) && true) value
                    ctx.counter.fd s))
                (reset_value ctx.counter_type ctx.counter.value_size value encoded)
            ∙ ap
                (λ b.
                  given zeroed
                    (set_all_in calls fuel (true && not b && true) value ctx.counter.fd s))
                kind
            ∙ ap (λ o. given zeroed (set_all_in calls fuel true value o s)) opened
            ∙ rw (laws.next_first s.world fd, run) refl,
        empty,
      )
