-- ===== src/Table/Values.antt =====
-- lib/nikss_table.c: the value of an entry as bytes, without the BTF of values: the number of the
-- action, a priority, the parameters of the action.
use nikss.Base.{ℕ, ◌+◌, ◌-◌, Bool, not, some, List, [], ◌∷◌, length, ltb, if◌then◌else◌}
use nikss.Bpf.Types.{Result, ok, err, hangs, eperm, einval, eagain}
use nikss.Selector.Types.{Action}
use nikss.Struct.Buffer.{Bytes}
use nikss.Struct.Fields.{copy_at}
use nikss.Counter.Value.{to_bytes, of_bytes, first, behind}
use nikss.Table.Types.{TableEntry, TableContext}

-- The loop over the parameters, with the offset of `buffer` and `bytes_to_write`.
unfoldable pub fill_params : List Bytes → ℕ → ℕ → Bytes → Result Bytes
fill_params [] offset bytes_to_write buffer = if ltb 0 bytes_to_write then err eperm else ok buffer
fill_params (p ∷ ps) offset bytes_to_write buffer =
    let rest =
      fill_params ps (offset + length p) (bytes_to_write - length p) (copy_at offset p buffer) in
    if ltb bytes_to_write (length p) then err eperm else rest

-- a uint32_t, where it is a part of the value
abbrev pub fill_number : Bool → ℕ → ℕ → ℕ → Bytes → (ℕ → ℕ → Bytes → Result Bytes) → Result Bytes
fill_number present n offset bytes_to_write buffer rest =
    if not present
    then rest offset bytes_to_write buffer
    else if ltb bytes_to_write 4
    then err eperm
    else rest (offset + 4) (bytes_to_write - 4) (copy_at offset (to_bytes 4 n) buffer)

unfoldable pub fill_value_byte_by_byte : TableContext → TableEntry → Action → Bytes → Result Bytes
fill_value_byte_by_byte ctx entry action buffer =
    fill_number (not ctx.is_indirect) action.action_id 0 ctx.table.value_size buffer
      (λ offset left filled.
        fill_number ctx.is_ternary entry.priority offset left filled (fill_params action.params))

-- The type of the value is not known.
abbrev pub fill_value_btf_info : TableContext → TableEntry → Action → Bytes → Result Bytes
fill_value_btf_info ctx entry action buffer = err eagain

-- What a value is parsed into: the number and the parameters of the action, the priority. A number
-- that is no part of the value is that of a new entry.
abbrev pub Parsed : Type 0
Parsed = Result (ℕ × ℕ × List Bytes)

abbrev pub parse_number : Bool → Bytes → (ℕ → Bytes → Parsed) → Parsed
parse_number present value rest =
    if not present
    then rest 0 value
    else if ltb (length value) 4
    then err einval
    else rest (of_bytes (first 4 value)) (behind 4 value)

-- `nikss_action_param_create`, for what is left
abbrev pub blob : Bytes → List Bytes
blob [] = []
blob (b ∷ bs) = (b ∷ bs) ∷ []

abbrev pub with_value : Parsed → TableEntry → Result (Unit {0}) × TableEntry
with_value (ok (id, priority, params)) entry = (
  ok tt,
  record entry { action = some (record { action_id = id; params = params }); priority = priority },
)
with_value (err e) entry = (err e, entry)
with_value hangs entry = (hangs, entry)

-- The value has as many bytes as the table says.
unfoldable pub parse_table_value_no_btf : TableContext → Bytes → Parsed
parse_table_value_no_btf ctx value = parse_number (not ctx.is_indirect) value (λ id rest.
    parse_number ctx.is_ternary rest (λ priority params. ok (id, priority, blob params)))
