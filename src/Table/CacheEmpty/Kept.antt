-- ===== src/Table/CacheEmpty/Kept.antt =====
-- Opening a tuple in lib/nikss_table.c leaves the cache in the context alone.
use nikss.Base.{
  ℕ, ◌≡◌, ◌∙◌, refl, Bool, true, false, not, ◌||◌, Option, none, some, ◌==◌, if◌then◌else◌,
  Bool-cases, inl, inr,
}
use nikss.Bpf.Types.{Result, ok, err, hangs, UpdateFlag, any}
use nikss.Bpf.Exec.{Proc}
use nikss.Struct.Buffer.{Bytes}
use nikss.Table.Types.{TableContext, TableCalls, TableEntry}
use nikss.Table.Prefixes.{get_ternary_table_prefix_md, tuple_id}
use nikss.Table.Entry.{open_tuple}
use nikss.Table.Tuples.{
  Tuple, register_tuple, add_created, opened_by_id, open_known, open_prefix, open_masked, with_mask,
  open_maps, prefix_value, all_zero, mask_of, ternary_table_open_tuple,
  ternary_table_add_tuple_and_open, is_exist, key_mask, tuple_info,
}

module _ {W : Type 0} (calls : TableCalls W) (fuel : ℕ) where
  module _ (tuple_fd : ℕ) (flag : UpdateFlag) where
    register_tuple-cache :
        (fd : ℕ) (r : Result W) (ctx : TableContext) (s : Proc W)
        → (register_tuple calls fd r ctx s).1.cache ≡ ctx.cache
    register_tuple-cache fd (ok w) ctx s = refl
    register_tuple-cache fd (err e) ctx s = refl
    register_tuple-cache fd hangs ctx s = refl

    add_created-cache :
        (id : ℕ) (r : Result (ℕ × W)) (ctx : TableContext) (s : Proc W)
        → (add_created calls tuple_fd id r ctx s).1.cache ≡ ctx.cache
    add_created-cache id (ok (fd, w)) ctx s =
        register_tuple-cache fd (calls.tuples.update w tuple_fd id fd any) ctx
          (record s { world = w })
    add_created-cache id (err e) ctx s = refl
    add_created-cache id hangs ctx s = refl

    opened_by_id-cache :
        (r : Result ℕ) (ctx : TableContext) (s : Proc W)
        → (opened_by_id calls r ctx s).1.cache ≡ ctx.cache
    opened_by_id-cache (ok fd) ctx s = refl
    opened_by_id-cache (err e) ctx s = refl
    opened_by_id-cache hangs ctx s = refl

    open_known-cache :
        (id : ℕ) (r : Result ℕ) (ctx : TableContext) (s : Proc W)
        → (open_known calls tuple_fd id flag r ctx s).1.cache ≡ ctx.cache
    unfolding ternary_table_add_tuple_and_open
    open_known-cache id (ok inner) ctx s = opened_by_id-cache (calls.map_get_fd s.world inner) ctx s
    open_known-cache id (err e) ctx s = elim (Bool-cases (is_exist flag)) [
      | inl t ↦ rw t refl
      | inr f ↦ rw f (add_created-cache id (calls.create_map s.world (tuple_info ctx.table)) ctx s)
    ]
    open_known-cache id hangs ctx s = refl

    open_prefix-cache :
        (r : Result Bytes) (ctx : TableContext) (s : Proc W)
        → (open_prefix calls tuple_fd flag r ctx s).1.cache ≡ ctx.cache
    open_prefix-cache (ok value) ctx s =
        let id = tuple_id (get_ternary_table_prefix_md ctx) value in
        open_known-cache id (calls.tuples.lookup s.world tuple_fd id) ctx s
    open_prefix-cache (err e) ctx s = refl
    open_prefix-cache hangs ctx s = refl

  with_mask-cache :
      (mask : Bytes) (r : Result (Unit {0})) (ctx : TableContext) (s : Proc W)
      → (with_mask calls mask (r, ctx, s)).1.cache ≡ ctx.cache
  with_mask-cache mask (ok u) ctx s = refl
  with_mask-cache mask (err e) ctx s = refl
  with_mask-cache mask hangs ctx s = refl

  mask_of-cache :
      (r : Result Bytes) (ctx : TableContext) (s : Proc W)
      → (mask_of calls (r, ctx, s)).1.cache ≡ ctx.cache
  mask_of-cache (ok mask) ctx s = refl
  mask_of-cache (err e) ctx s = refl
  mask_of-cache hangs ctx s = refl

  open_masked-cache :
      (fd tuple_fd : ℕ) (flag : UpdateFlag) (r : Result Bytes) (ctx : TableContext) (s : Proc W)
      → (open_masked calls fuel fd tuple_fd flag r ctx s).1.cache ≡ ctx.cache
  open_masked-cache fd tuple_fd flag (ok mask) ctx s =
      let (value, w) =
        prefix_value calls fuel fd flag mask (calls.prefix_list.lookup s.world fd mask) ctx
          s.world in
      let (r, ctx', s') = open_prefix calls tuple_fd flag value ctx (record s { world = w }) in
      elim (Bool-cases (all_zero mask)) [
        | inl t ↦ rw t refl
        | inr f ↦ rw f (
            with_mask-cache mask r ctx' s'
            ∙ open_prefix-cache tuple_fd flag value ctx (record s { world = w }))
      ]
  open_masked-cache fd tuple_fd flag (err e) ctx s = refl
  open_masked-cache fd tuple_fd flag hangs ctx s = refl

  open_maps-cache :
      (p t fd : Option ℕ) (entry : TableEntry) (flag : UpdateFlag) (ctx : TableContext) (s : Proc W)
      → (open_maps calls fuel p t fd entry flag ctx s).1.cache ≡ ctx.cache
  open_maps-cache none t fd entry flag ctx s = refl
  open_maps-cache (some p) none fd entry flag ctx s = refl
  open_maps-cache (some p) (some t) (some fd) entry flag ctx s = refl
  open_maps-cache (some p) (some t) none entry flag ctx s =
      elim (Bool-cases (not (ctx.table.key_size == ctx.prefixes.key_size))) [
        | inl h ↦ rw h refl
        | inr f ↦
            elim (Bool-cases
              (not (ctx.tuple_map.key_size == 4) || not (ctx.tuple_map.value_size == 4))) [
                | inl h ↦ rw (f, h) refl
                | inr g ↦ rw (f, g) (open_masked-cache p t flag (key_mask calls ctx entry) ctx s)
              ]
      ]

  chosen-cache :
      (b : Bool) (ctx : TableContext) (s : Proc W) (t : Tuple W Bytes)
      → t.1.cache ≡ ctx.cache
      → (if b then mask_of calls t else (ok none, ctx, s)).1.cache ≡ ctx.cache
  chosen-cache true ctx s (r, ctx', s') h = mask_of-cache r ctx' s' ∙ h
  chosen-cache false ctx s t h = refl

  pub open_tuple-cache :
      (entry : TableEntry) (flag : UpdateFlag) (ctx : TableContext) (s : Proc W)
      → (open_tuple calls fuel entry flag ctx s).1.cache ≡ ctx.cache
  unfolding ternary_table_open_tuple
  open_tuple-cache entry flag ctx s =
      chosen-cache ctx.is_ternary ctx s (ternary_table_open_tuple calls fuel entry flag ctx s)
        (open_maps-cache ctx.prefixes.fd ctx.tuple_map.fd ctx.table.fd entry flag ctx s)
