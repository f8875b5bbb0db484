-- ===== src/Table/Encoded.antt =====
-- The value of an entry in lib/nikss_table.c: which bytes are written, and what is read from them.
use nikss.Base.{
  ℕ, zero, suc, ◌+◌, ◌-◌, ◌<◌, ◌≤◌, ◌^◌, ◌≡◌, ◌∙◌, sym, refl, ap, Bool, true, false, not, List, [],
  ◌∷◌, ◌++◌, length, length-append, ltb, ◌==◌, if◌then◌else◌, arith, Bool-cases, inl, inr, ◌/◌,
}
use nikss.Bpf.Types.{Result, ok, err, eperm}
use nikss.Selector.Types.{Action}
use nikss.Struct.Buffer.{Bytes}
use nikss.Struct.Fields.{copy_at}
use nikss.Struct.Constructed.{concat, zeros, copy_at-zeros, copy_at-behind, append_assoc}
use nikss.Counter.Value.{to_bytes, of_bytes, first, of_bytes-to_bytes, first-to_bytes}
use nikss.Table.Types.{TableEntry, TableContext}
use nikss.Table.Values.{
  fill_params, fill_value_byte_by_byte, parse_table_value_no_btf, blob, fill_number, parse_number,
}

-- a write behind what is written already
pub copy_at-next :
    (pre f : Bytes) (left : ℕ)
    → length f ≤ left
    → copy_at (length pre) f (pre ++ zeros left) ≡ (pre ++ f) ++ zeros (left - length f)
copy_at-next pre f left le =
    copy_at-behind pre f (zeros left)
    ∙ ap (λ bs. pre ++ bs) (copy_at-zeros f left le)
    ∙ sym (append_assoc pre f (zeros (left - length f)))

-- Behind `pre` all the bytes that are left are written, and no more.
abbrev pub filled : Bytes → Bytes → ℕ → Result Bytes
filled pre bytes left = if length bytes == left then ok (pre ++ bytes) else err eperm

pub filled_behind :
    (pre p bytes : Bytes) (left : ℕ)
    → length p ≤ left
    → filled (pre ++ p) bytes (left - length p) ≡ filled pre (p ++ bytes) left
filled_behind pre p bytes left le =
    rw (length-append p bytes, append_assoc pre p bytes) (ground arith)

pub filled_too_long :
    (pre p bytes : Bytes) (left : ℕ) → left < length p → filled pre (p ++ bytes) left ≡ err eperm
filled_too_long pre p bytes left lt = rw (length-append p bytes) (ground arith)

pub length-to_bytes : (n v : ℕ) → length (to_bytes n v) ≡ n
length-to_bytes zero v = refl
length-to_bytes (suc n) v = ap suc (length-to_bytes n (v / 256))

fill_params_lem :
    (ps : List Bytes) (pre : Bytes) (left : ℕ)
    → fill_params ps (length pre) left (pre ++ zeros left) ≡ filled pre (concat ps) left
unfolding fill_params
fill_params_lem [] pre zero = refl
fill_params_lem [] pre (suc left) = ground arith
fill_params_lem (p ∷ ps) pre left = elim (Bool-cases (ltb left (length p))) [
  | inl t ↦ rw t (sym (filled_too_long pre p (concat ps) left (ground arith)))
  | inr f ↦
      let le : length p ≤ left = ground arith in
      rw f (
        ap (fill_params ps (length pre + length p) (left - length p)) (copy_at-next pre p left le)
        ∙ ap (λ (n : ℕ). fill_params ps n (left - length p) ((pre ++ p) ++ zeros (left - length p)))
            (sym (length-append pre p))
        ∙ fill_params_lem ps (pre ++ p) (left - length p)
        ∙ filled_behind pre p (concat ps) left le)
]

-- a uint32_t, lowest byte first, where it is a part of the value
abbrev pub number_bytes : Bool → ℕ → Bytes
number_bytes true n = to_bytes 4 n
number_bytes false n = []

fill_number_lem :
    (present : Bool) (n : ℕ) (pre bytes : Bytes) (left : ℕ) (rest : ℕ → ℕ → Bytes → Result Bytes)
    → ((p : Bytes) (k : ℕ) → rest (length p) k (p ++ zeros k) ≡ filled p bytes k)
    → fill_number present n (length pre) left (pre ++ zeros left) rest
      ≡ filled pre (number_bytes present n ++ bytes) left
fill_number_lem false n pre bytes left rest h = h pre left
fill_number_lem true n pre bytes left rest h =
    let number : Bytes = to_bytes 4 n in
    let size : length number ≡ 4 = length-to_bytes 4 n in
    elim (Bool-cases (ltb left 4)) [
      | inl t ↦ rw t (sym (filled_too_long pre number bytes left (ground arith)))
      | inr f ↦
          let le : length number ≤ left = ground arith in
          let written = copy_at-next pre number left le in
          rw f (
            ap (rest (length pre + 4) (left - 4)) written
            ∙ ap (λ (k : ℕ). rest k (left - 4) ((pre ++ number) ++ zeros (left - length number)))
                (omega (arith, length-append pre number))
            ∙ h (pre ++ number) (left - 4)
            ∙ filled_behind pre number bytes left le)
    ]

-- the value of an entry
abbrev pub value_bytes : TableContext → TableEntry → Action → Bytes
value_bytes ctx entry action =
    number_bytes (not ctx.is_indirect) action.action_id
    ++ (number_bytes ctx.is_ternary entry.priority ++ concat action.params)

-- The bytes written are the number of the action unless the table is indirect, the priority if it is
-- ternary, each with its lowest byte first, and the parameters one behind the other; the result is
-- EPERM if these are not as many as the value has.
pub fill_value_byte_by_byte_lem :
    (ctx : TableContext) (entry : TableEntry) (action : Action)
    → fill_value_byte_by_byte ctx entry action (zeros ctx.table.value_size) ≡ (
        if length (value_bytes ctx entry action) == ctx.table.value_size
        then ok (value_bytes ctx entry action)
        else err eperm)
unfolding fill_value_byte_by_byte
fill_value_byte_by_byte_lem ctx entry action =
    fill_number_lem (not ctx.is_indirect) action.action_id []
      (number_bytes ctx.is_ternary entry.priority ++ concat action.params) ctx.table.value_size
      (λ offset left bytes.
        fill_number ctx.is_ternary entry.priority offset left bytes (fill_params action.params))
      (λ p k.
        fill_number_lem ctx.is_ternary entry.priority p (concat action.params) k
          (fill_params action.params) (fill_params_lem action.params))

number-read : (n : ℕ) (bytes : Bytes) → n < 2 ^ 32 → of_bytes (first 4 (to_bytes 4 n ++ bytes)) ≡ n
number-read n bytes lt = ap of_bytes (first-to_bytes 4 n bytes) ∙ of_bytes-to_bytes 4 n lt

parse_number_lem :
    (present : Bool) (n : ℕ) (bytes : Bytes) (rest : ℕ → Bytes → Result (ℕ × ℕ × List Bytes))
    → n < 2 ^ 32
    → parse_number present (number_bytes present n ++ bytes) rest
      ≡ rest (if present then n else 0) bytes
parse_number_lem false n bytes rest lt = refl
parse_number_lem true n bytes rest lt =
    let fits : ltb (length (to_bytes 4 n ++ bytes)) 4 ≡ false = ground arith in
    rw fits (ap (λ (k : ℕ). rest k bytes) (number-read n bytes lt))

-- Let the number of the action and the priority be less than 2 ^ 32. Parsing the value of an entry
-- gives them back where the table keeps them, 0 otherwise, and all parameters as a single one, if
-- they have any bytes.
pub parse_table_value_no_btf_lem :
    (ctx : TableContext) (entry : TableEntry) (action : Action)
    → action.action_id < 2 ^ 32
    → entry.priority < 2 ^ 32
    → parse_table_value_no_btf ctx (value_bytes ctx entry action)
      ≡ ok (
        if not ctx.is_indirect then action.action_id else 0,
        if ctx.is_ternary then entry.priority else 0,
        blob (concat action.params),
      )
unfolding parse_table_value_no_btf
parse_table_value_no_btf_lem ctx entry action lt lt' =
    parse_number_lem (not ctx.is_indirect) action.action_id
      (number_bytes ctx.is_ternary entry.priority ++ concat action.params)
      (λ id rest.
        parse_number ctx.is_ternary rest (λ priority params. ok (id, priority, blob params)))
      lt
    ∙ parse_number_lem ctx.is_ternary entry.priority (concat action.params)
        (λ priority params.
          ok (if not ctx.is_indirect then action.action_id else 0, priority, blob params))
        lt'
