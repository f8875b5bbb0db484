-- ===== src/Table/PrefixList.antt =====
-- The list of prefixes of a ternary table in lib/nikss_table.c: what a node says, and which list a
-- map holds.
use nikss.Base.{
  ℕ, zero, suc, ◌+◌, ◌<◌, ◌≤◌, ◌^◌, ◌≡◌, ◌∙◌, sym, refl, ap, Bool, false, ◌||◌, Option, some, List,
  [], ◌∷◌, length, ltb, ◌==◌, if◌then◌else◌, arith,
}
use nikss.Struct.Buffer.{Bytes}
use nikss.Struct.Equal.{bytes_beq}
use nikss.Struct.Slices.{slice, length-copy_at, slice-written, slice-before, slice-behind}
use nikss.Struct.Fields.{copy_at}
use nikss.Struct.Constructed.{zeros}
use nikss.Counter.Value.{to_bytes, of_bytes, of_bytes-to_bytes}
use nikss.Table.Types.{TableContext}
use nikss.Table.Prefixes.{
  PrefixMetadata, get_ternary_table_prefix_md, tuple_id, next_mask, has_next, new_node, point_to,
  highest,
}

-- The three parts of a node stand one behind the other in its bytes.
pub record IsLaidOut (md : PrefixMetadata) (size : ℕ) : Type 0 where
  pub id_first : md.tuple_id_offset + 4 ≤ md.next_mask_offset
  pub mask_next : md.next_mask_offset + md.next_mask_size ≤ md.has_next_offset
  pub flag_last : md.has_next_offset + 1 ≤ size
  pub flag_size : md.has_next_size ≡ 1

pub get_ternary_table_prefix_md-IsLaidOut :
    (ctx : TableContext)
    → (if ltb 4 ctx.table.key_size then 8 else 4) + ctx.table.key_size < ctx.prefixes.value_size
    → IsLaidOut (get_ternary_table_prefix_md ctx) ctx.prefixes.value_size
unfolding get_ternary_table_prefix_md
get_ternary_table_prefix_md-IsLaidOut ctx fits = record {
  id_first = ground arith;
  mask_next = omega arith;
  flag_last = omega (arith, fits);
  flag_size = refl;
}

pub length-zeros : (n : ℕ) → length (zeros n) ≡ n
length-zeros zero = refl
length-zeros (suc n) = ap suc (length-zeros n)

pub slice-zeros : (at n size : ℕ) → of_bytes (slice at n (zeros size)) ≡ 0
slice-zeros zero zero size = refl
slice-zeros zero (suc n) zero = refl
slice-zeros zero (suc n) (suc size) = omega (arith, slice-zeros zero n size)
slice-zeros (suc at) zero zero = refl
slice-zeros (suc at) (suc n) zero = refl
slice-zeros (suc at) n (suc size) = slice-zeros at n size

module _ (md : PrefixMetadata) (size : ℕ) (laid : IsLaidOut md size) where
  module _ (mask value : Bytes) (long : length value ≡ size)
      (whole : length mask ≡ md.next_mask_size) where
    abbrev masked : Bytes
    masked = copy_at md.next_mask_offset mask value

    length-masked : length masked ≡ size
    length-masked = length-copy_at md.next_mask_offset mask value ∙ long

    pub length-point_to : length (point_to md mask value) ≡ size
    length-point_to =
        length-copy_at md.has_next_offset (1 ∷ []) (copy_at md.next_mask_offset mask value)
        ∙ length-masked

    pub has_next-point_to : has_next md (point_to md mask value) ≡ 1
    has_next-point_to = ap of_bytes (
        slice-written md.has_next_offset (1 ∷ []) masked
          (omega (arith, length-masked, laid.flag_last)))

    pub next_mask-point_to : next_mask md (point_to md mask value) ≡ mask
    next_mask-point_to =
        slice-before md.next_mask_offset md.next_mask_size md.has_next_offset (1 ∷ []) masked
          laid.mask_next
        ∙ ap (λ (n : ℕ). slice md.next_mask_offset n masked) (sym whole)
        ∙ slice-written md.next_mask_offset mask value
            (omega (arith, long, whole, laid.mask_next, laid.flag_last))

    pub tuple_id-point_to : tuple_id md (point_to md mask value) ≡ tuple_id md value
    tuple_id-point_to = ap of_bytes (
        slice-before md.tuple_id_offset 4 md.has_next_offset (1 ∷ []) masked
          (omega (arith, laid.id_first, laid.mask_next))
        ∙ slice-before md.tuple_id_offset 4 md.next_mask_offset mask value laid.id_first)

  pub length-new_node : (id : ℕ) → length (new_node md size id) ≡ size
  length-new_node id =
      length-copy_at md.tuple_id_offset (to_bytes 4 id) (zeros size) ∙ length-zeros size

  pub tuple_id-new_node : (id : ℕ) → id < 2 ^ 32 → tuple_id md (new_node md size id) ≡ id
  tuple_id-new_node id lt =
      ap of_bytes (
        slice-written md.tuple_id_offset (to_bytes 4 id) (zeros size)
          (omega (arith, length-zeros size, laid.id_first, laid.mask_next, laid.flag_last)))
      ∙ of_bytes-to_bytes 4 id lt

  pub has_next-new_node : (id : ℕ) → has_next md (new_node md size id) ≡ 0
  has_next-new_node id =
      ap of_bytes (
        slice-behind md.has_next_offset 1 md.tuple_id_offset (to_bytes 4 id) (zeros size)
          (omega (arith, laid.id_first, laid.mask_next)))
      ∙ slice-zeros md.has_next_offset 1 size

abbrev pub Prefix : Type 0
Prefix = Bytes × ℕ

abbrev pub Nodes : Type 0
Nodes = Bytes → Option Bytes

abbrev pub has_mask : Bytes → List Prefix → Bool
has_mask m [] = false
has_mask m ((p, id) ∷ ps) = bytes_beq p m || has_mask m ps

-- From a node of the value `value` the links lead through the prefixes and end.
abbrev pub IsPrefixChain : PrefixMetadata → ℕ → Nodes → Bytes → List Prefix → Type 0
IsPrefixChain md size f value [] = has_next md value ≡ 0
IsPrefixChain md size f value ((p, id) ∷ ps) =
    ((has_next md value == 0) ≡ false)
    × (next_mask md value ≡ p)
    × ((u : Bytes) × (f p ≡ some u)
        × (length u ≡ size)
        × (tuple_id md u ≡ id)
        × IsPrefixChain md size f u ps)

-- No mask stands twice, and none is the head's, of zero bytes.
abbrev pub IsSeparate : ℕ → List Prefix → Type 0
IsSeparate key_size [] = Unit {0}
IsSeparate key_size ((p, id) ∷ ps) =
    (bytes_beq (zeros key_size) p ≡ false) × (has_mask p ps ≡ false) × IsSeparate key_size ps

-- The map holds the prefixes behind its head.
pub record IsPrefixList (md : PrefixMetadata) (size : ℕ) (f : Nodes) (ps : List Prefix)
    : Type 0 where
  pub head : Bytes
  pub head_there : f (zeros md.next_mask_size) ≡ some head
  pub head_long : length head ≡ size
  pub chain : IsPrefixChain md size f head ps
  pub separate : IsSeparate md.next_mask_size ps

-- the highest number of a tuple, from `id` on
abbrev pub highest_of : List Prefix → ℕ → ℕ
highest_of [] id = id
highest_of ((p, n) ∷ ps) id = highest_of ps (highest n id)
