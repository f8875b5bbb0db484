-- ===== src/Direct/Misplaced.antt =====
-- Where `handle_direct_counter_write` of lib/nikss_table.c puts the numbers of a direct counter.
use nikss.Base.{
  ℕ, zero, suc, ◌+◌, ◌≤◌, ◌≡◌, ◌∙◌, sym, refl, ap, some, List, [], ◌∷◌, length, get_elem?, arith,
  map, subst,
}
use nikss.Bpf.Types.{ok, MapCalls, exist}
use nikss.Struct.Buffer.{Bytes}
use nikss.Struct.Fields.{copy_at}
use nikss.Struct.Slices.{
  slice, length-copy_at, slice-written, slice-before, slice-behind, length-slice,
}
use nikss.Counter.Value.{convert_counter_entry_to_data, convert_counter_data_to_entry}
use nikss.Direct.Counter.{DirectCounterContext, DirectCounterEntry}
use nikss.Direct.Write.{
  copy_old, write_counter, write_counters, then_do, value_on, handle_direct_counter_write,
  parse_table_value_direct_counter,
}

-- The counters lie one behind the other, as the members of a struct, from `at` to `limit`.
abbrev pub IsLaidOut : ℕ → ℕ → List DirectCounterContext → Type 0
IsLaidOut at limit [] = at ≤ limit
IsLaidOut at limit (c ∷ cs) =
    (at ≤ c.counter_offset) × IsLaidOut (c.counter_offset + c.counter_size) limit cs

-- the part of a value that belongs to a counter
abbrev part : DirectCounterContext → Bytes → Bytes
part c value = slice c.counter_offset c.counter_size value

laid_out-le : (cs : List DirectCounterContext) (at limit : ℕ) → IsLaidOut at limit cs → at ≤ limit
laid_out-le [] at limit laid = laid
laid_out-le (c ∷ cs) at limit laid =
    let rest = laid_out-le cs (c.counter_offset + c.counter_size) limit laid.1 in
    omega (arith, laid.0, rest)

within :
    (cs : List DirectCounterContext) (at limit k : ℕ) (c : DirectCounterContext)
    → IsLaidOut at limit cs
    → get_elem? cs k ≡ some c
    → (at ≤ c.counter_offset) × (c.counter_offset + c.counter_size ≤ limit)
within [] at limit k c laid here = absurd (cc)
within (d ∷ cs) at limit zero c laid here =
    let same : d ≡ c = cc in
    let (from, to) : (at ≤ d.counter_offset) × (d.counter_offset + d.counter_size ≤ limit) =
      (laid.0, laid_out-le cs (d.counter_offset + d.counter_size) limit laid.1) in
    subst (λ x. (at ≤ x.counter_offset) × (x.counter_offset + x.counter_size ≤ limit)) same
      (from, to)
within (d ∷ cs) at limit (suc k) c laid here =
    let (from, to) = within cs (d.counter_offset + d.counter_size) limit k c laid.1 here in
    (omega (arith, laid.0, from), to)

copy_old-before :
    (cs : List DirectCounterContext) (at limit a n : ℕ) (old value : Bytes)
    → IsLaidOut at limit cs
    → a + n ≤ at
    → slice a n (copy_old cs old value) ≡ slice a n value
unfolding copy_old
copy_old-before [] at limit a n old value laid le = refl
copy_old-before (c ∷ cs) at limit a n old value laid le =
    copy_old-before cs (c.counter_offset + c.counter_size) limit a n old
      (copy_at c.counter_offset (part c old) value) laid.1 (omega (arith, laid.0))
    ∙ slice-before a n c.counter_offset (part c old) value (omega (arith, laid.0))

length-copy_old :
    (cs : List DirectCounterContext) (old value : Bytes)
    → length (copy_old cs old value) ≡ length value
unfolding copy_old
length-copy_old [] old value = refl
length-copy_old (c ∷ cs) old value =
    length-copy_old cs old (copy_at c.counter_offset (part c old) value)
    ∙ length-copy_at c.counter_offset (part c old) value

-- The copy leaves the old numbers of every counter.
copy_old-part :
    (cs : List DirectCounterContext) (at limit k : ℕ) (c : DirectCounterContext) (old value : Bytes)
    → IsLaidOut at limit cs
    → limit ≤ length value
    → limit ≤ length old
    → get_elem? cs k ≡ some c
    → part c (copy_old cs old value) ≡ part c old
unfolding copy_old
copy_old-part [] at limit k c old value laid room room' here = absurd (cc)
copy_old-part (d ∷ cs) at limit zero c old value laid room room' here =
    let same : d ≡ c = cc in
    let limited = laid_out-le cs (d.counter_offset + d.counter_size) limit laid.1 in
    let size : length (part d old) ≡ d.counter_size =
      length-slice d.counter_offset d.counter_size old (omega (arith, limited, room')) in
    let value' : Bytes = copy_at d.counter_offset (part d old) value in
    let written : slice d.counter_offset (length (part d old)) value' ≡ part d old =
      slice-written d.counter_offset (part d old) value (omega (arith, size, limited, room)) in
    subst (λ x. part x (copy_old cs old value') ≡ part x old) same
      (copy_old-before cs (d.counter_offset + d.counter_size) limit d.counter_offset d.counter_size
          old value' laid.1 (omega arith)
        ∙ ap (λ n. slice d.counter_offset n value') (sym size)
        ∙ written)
copy_old-part (d ∷ cs) at limit (suc k) c old value laid room room' here =
    copy_old-part cs (d.counter_offset + d.counter_size) limit k c old
      (copy_at d.counter_offset (part d old) value) laid.1
      (omega (arith, room, length-copy_at d.counter_offset (part d old) value)) room' here

get-map :
    {A B : Type 0} (f : A → B) (xs : List A) (k : ℕ) (x : A)
    → get_elem? xs k ≡ some x
    → get_elem? (map f xs) k ≡ some (f x)
get-map f [] k x here = absurd (cc)
get-map f (y ∷ xs) zero x here = let same : y ≡ x = cc in ap (λ z. some (f z)) same
get-map f (y ∷ xs) (suc k) x here = get-map f xs k x here

-- what is read of the counter in a value
abbrev read_of : Bytes → DirectCounterContext → DirectCounterEntry
read_of value c = record {
  counter = convert_counter_data_to_entry (part c value) c.counter_size c.counter_type;
  counter_idx = c.counter_idx;
}

parse-part :
    (c0 : DirectCounterContext) (cs : List DirectCounterContext) (k : ℕ) (c : DirectCounterContext)
    (value old : Bytes)
    → get_elem? cs k ≡ some c
    → part c value ≡ part c old
    → get_elem? (parse_table_value_direct_counter (c0 ∷ cs) [] value) (suc k)
      ≡ get_elem? (parse_table_value_direct_counter (c0 ∷ cs) [] old) (suc k)
unfolding parse_table_value_direct_counter
parse-part c0 cs k c value old here same =
    get-map (read_of value) cs k c here
    ∙ ap
        (λ bs. some (record {
          counter = convert_counter_data_to_entry bs c.counter_size c.counter_type;
          counter_idx = c.counter_idx;
        }))
        same
    ∙ sym (get-map (read_of old) cs k c here)

-- Let the counters of a table lie one behind the other in values that are long enough, let the map hold
-- an old value at the key, and let an entry have a single counter set, which is not the first one of
-- the table and is converted to no more bytes than the first one has. For an update the function then
-- succeeds, but the bytes are written over the first counter, and reading the counter that was set
-- gives the same as reading it in the old value.
pub handle_direct_counter_write-misplaced :
    {W : Type 0} (calls : MapCalls W Bytes Bytes) (fd : ℕ) (key : Bytes)
    (c0 c : DirectCounterContext) (cs : List DirectCounterContext) (at limit k : ℕ)
    (e : DirectCounterEntry) (old value bytes : Bytes) (w : W)
    → IsLaidOut at limit (c0 ∷ cs)
    → limit ≤ length value
    → limit ≤ length old
    → get_elem? cs k ≡ some c
    → e.counter_idx ≡ suc k
    → convert_counter_entry_to_data c.counter_type c.counter_size e.counter ≡ some bytes
    → length bytes ≤ c0.counter_size
    → calls.lookup w fd key ≡ ok old
    → (value' : Bytes) × (handle_direct_counter_write calls fd key (c0 ∷ cs) (e ∷ []) exist value w
        ≡ ok value')
      × (slice c0.counter_offset (length bytes) value' ≡ bytes)
      × (get_elem? (parse_table_value_direct_counter (c0 ∷ cs) [] value') (suc k)
          ≡ get_elem? (parse_table_value_direct_counter (c0 ∷ cs) [] old) (suc k))
unfolding handle_direct_counter_write write_counters
handle_direct_counter_write-misplaced calls fd key c0 c cs at limit k e old value bytes w laid room
      room' here indexed converted short found =
    let copied : Bytes = copy_old (c0 ∷ cs) old value in
    let long : length copied ≡ length value = length-copy_old (c0 ∷ cs) old value in
    let limited = laid_out-le cs (c0.counter_offset + c0.counter_size) limit laid.1 in
    let (behind, inside) = within cs (c0.counter_offset + c0.counter_size) limit k c laid.1 here in
    (
      copy_at c0.counter_offset bytes copied,
      ap
            (λ r.
              then_do (value_on calls exist (c0 ∷ cs) r value)
                (write_counters (c0 ∷ cs) (c0 ∷ cs) (e ∷ [])))
            found
          ∙ ap
              (λ (i : ℕ).
                write_counter (get_elem? (c0 ∷ cs) i) (c0 ∷ cs) e copied
                  (λ from_here v. write_counters (c0 ∷ cs) from_here [] v))
              indexed
          ∙ ap
              (λ o.
                write_counter o (c0 ∷ cs) e copied
                  (λ from_here v. write_counters (c0 ∷ cs) from_here [] v))
              here
          ∙ rw (write_counter, converted) refl,
      slice-written c0.counter_offset bytes copied (omega (arith, long, limited, room, short)),
      parse-part c0 cs k c (copy_at c0.counter_offset bytes copied) old here (
          slice-behind c.counter_offset c.counter_size c0.counter_offset bytes copied
            (omega (arith, behind, short))
          ∙ copy_old-part (c0 ∷ cs) at limit (suc k) c old value laid room room' here),
    )
