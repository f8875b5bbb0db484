-- ===== src/Table/Prefixes.antt =====
-- lib/nikss_table.c: the prefixes of a ternary table, which are the masks of its entries. They are a
-- linked list with its head at the key of zero bytes; a node holds the number of a tuple, the next
-- mask, and a flag. Numbers have their lowest byte first.
use nikss.Base.{
  ℕ, zero, suc, ◌+◌, ◌^◌, ◌-◌, true, false, Option, none, some, [], ◌∷◌, ltb, ◌==◌, if◌then◌else◌,
  replicate,
}
use nikss.Bpf.Types.{Result, ok, err, hangs, MapCalls, noexist, exist, any}
use nikss.Struct.Buffer.{Bytes}
use nikss.Struct.Equal.{bytes_beq}
use nikss.Struct.Slices.{slice}
use nikss.Struct.Fields.{copy_at}
use nikss.Counter.Value.{to_bytes, of_bytes}
use nikss.Table.Types.{TableContext}
use nikss.Table.Clear.{after}

-- `struct ternary_table_prefix_metadata`; the numbers are read and written in 4 bytes and 1 byte.
pub record PrefixMetadata : Type 0 where
  pub tuple_id_offset : ℕ
  pub next_mask_offset : ℕ
  pub next_mask_size : ℕ
  pub has_next_offset : ℕ
  pub has_next_size : ℕ

-- The type of the value is not known.
unfoldable pub get_ternary_table_prefix_md : TableContext → PrefixMetadata
get_ternary_table_prefix_md ctx =
    let size = ctx.table.key_size in
    let next = if ltb 4 size then 8 else 4 in
    record {
      tuple_id_offset = 0;
      next_mask_offset = next;
      next_mask_size = size;
      has_next_offset = next + size;
      has_next_size = 1;
    }

abbrev pub tuple_id : PrefixMetadata → Bytes → ℕ
tuple_id md value = of_bytes (slice md.tuple_id_offset 4 value)

abbrev pub next_mask : PrefixMetadata → Bytes → Bytes
next_mask md value = slice md.next_mask_offset md.next_mask_size value

abbrev pub has_next : PrefixMetadata → Bytes → ℕ
has_next md value = of_bytes (slice md.has_next_offset 1 value)

abbrev pub new_node : PrefixMetadata → ℕ → ℕ → Bytes
new_node md size id = copy_at md.tuple_id_offset (to_bytes 4 id) (replicate size 0)

abbrev pub point_to : PrefixMetadata → Bytes → Bytes → Bytes
point_to md mask value =
    copy_at md.has_next_offset (1 ∷ []) (copy_at md.next_mask_offset mask value)

abbrev pub highest : ℕ → ℕ → ℕ
highest a b = if ltb b a then a else b

-- an int of -1, which is what a call returns that fails, where errno is not read
abbrev pub minus_one : ℕ
minus_one = 2 ^ 32 - 1

-- the next mask and the flag of a node
abbrev pub copy_link : PrefixMetadata → Bytes → Bytes → Bytes
copy_link md value prev_value =
    copy_at md.has_next_offset (slice md.has_next_offset md.has_next_size value)
      (copy_at md.next_mask_offset (next_mask md value) prev_value)

module _ {W : Type 0} (prefix_list : MapCalls W Bytes Bytes) (md : PrefixMetadata) (fd : ℕ) where
  -- The loop: the key and the value of the last node, and the highest number of a tuple.
  unfoldable pub walk_prefixes : ℕ → Bytes → Bytes → ℕ → W → Result (Bytes × Bytes × ℕ)
  walk_prefixes zero key value id w = hangs
  walk_prefixes (suc fuel) key value id w = elim (has_next md value == 0) [
    | true ↦ ok (key, value, id)
    | false ↦ elim (prefix_list.lookup w fd (next_mask md value)) [
      | ok u ↦ walk_prefixes fuel (next_mask md value) u (highest (tuple_id md u) id) w
      | err e ↦ err e
      | hangs ↦ hangs
    ]
  ]

  abbrev pub head_value : ℕ → Result Bytes → Bytes
  head_value size (ok value) = value
  head_value size (err e) = replicate size 0
  head_value size hangs = replicate size 0

  abbrev pub link_last : Bytes → Bytes → Bytes → Bytes → Result W → W → Result Bytes × W
  link_last mask node key value (ok w) w0 =
      elim (prefix_list.update w fd key (point_to md mask value) any) [
        | ok w' ↦ (ok node, w')
        | err e ↦ (err minus_one, w)
        | hangs ↦ (hangs, w)
      ]
  link_last mask node key value (err e) w0 = (err minus_one, w0)
  link_last mask node key value hangs w0 = (hangs, w0)

  abbrev pub add_behind : ℕ → Bytes → Result (Bytes × Bytes × ℕ) → W → Result Bytes × W
  add_behind size mask (ok (key, value, id)) w =
      let node = new_node md size (id + 1) in
      link_last mask node key value (prefix_list.update w fd mask node noexist) w
  add_behind size mask (err e) w = (err e, w)
  add_behind size mask hangs w = (hangs, w)

  -- The result is the value of the new prefix.
  unfoldable pub add_ternary_table_prefix : ℕ → ℕ → ℕ → Bytes → W → Result Bytes × W
  add_ternary_table_prefix fuel key_size value_size new_prefix w =
      let key = replicate key_size 0 in
      let value = head_value value_size (prefix_list.lookup w fd key) in
      add_behind value_size new_prefix (walk_prefixes fuel key value 0 w) w

  -- The loop that looks for the prefix before the one at `mask`; `none` where there is none.
  unfoldable pub find_prefix : ℕ → Bytes → Bytes → Bytes → W → Result (Option (Bytes × Bytes))
  find_prefix zero mask key value w = hangs
  find_prefix (suc fuel) mask key value w = elim (bytes_beq (next_mask md value) mask) [
    | true ↦ ok (some (key, value))
    | false ↦ elim (has_next md value == 0) [
      | true ↦ ok none
      | false ↦ elim (prefix_list.lookup w fd (next_mask md value)) [
        | ok u ↦ find_prefix fuel mask (next_mask md value) u w
        | err e ↦ ok none
        | hangs ↦ hangs
      ]
    ]
  ]

  module _ (tuples : MapCalls W ℕ ℕ) (tuple_fd : ℕ) where
    abbrev pub drop_node : Bytes → Bytes → W → W
    drop_node mask value w =
        let w' = after (prefix_list.delete w fd mask) w in
        after (tuples.delete w' tuple_fd (tuple_id md value)) w'

    abbrev pub drop_relinked : Bytes → Bytes → Result W → W → Result (Unit {0}) × W
    drop_relinked mask value (ok w) w0 = (ok tt, drop_node mask value w)
    drop_relinked mask value (err e) w0 = (err e, w0)
    drop_relinked mask value hangs w0 = (hangs, w0)

    abbrev pub remove_behind :
        Bytes → Bytes → Result (Option (Bytes × Bytes)) → W → Result (Unit {0}) × W
    remove_behind mask value (ok none) w = (ok tt, drop_node mask value w)
    remove_behind mask value (ok (some (key, prev))) w =
        drop_relinked mask value (prefix_list.update w fd key (copy_link md value prev) exist) w
    remove_behind mask value (err e) w = (err e, w)
    remove_behind mask value hangs w = (hangs, w)

    abbrev pub remove_from : ℕ → Bytes → Bytes → Bytes → Result Bytes → W → Result (Unit {0}) × W
    remove_from fuel mask value key (ok head) w =
        remove_behind mask value (find_prefix fuel mask key head w) w
    remove_from fuel mask value key (err e) w = (err e, w)
    remove_from fuel mask value key hangs w = (hangs, w)

    abbrev pub remove_known : ℕ → ℕ → Bytes → Result Bytes → W → Result (Unit {0}) × W
    remove_known fuel key_size mask (ok value) w =
        let key = replicate key_size 0 in
        remove_from fuel mask value key (prefix_list.lookup w fd key) w
    remove_known fuel key_size mask (err e) w = (err e, w)
    remove_known fuel key_size mask hangs w = (hangs, w)

    unfoldable pub ternary_table_remove_prefix : ℕ → ℕ → Bytes → W → Result (Unit {0}) × W
    ternary_table_remove_prefix fuel key_size mask w =
        remove_known fuel key_size mask (prefix_list.lookup w fd mask) w
