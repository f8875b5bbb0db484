-- ===== src/Table/CacheEmpty.antt =====
-- Writing an entry of a table in lib/nikss_table.c, and the cache of the table.
use nikss.Base.{
  ℕ, ◌<◌, ◌≡◌, ◌∙◌, sym, refl, ap, subst, Bool, true, false, ◌||◌, Option, none, some, List, [],
  ◌∷◌, length, ◌==◌, if◌then◌else◌, arith, Bool-cases, inl, inr, replicate,
}
use nikss.Bpf.Types.{Result, ok, err, hangs, UpdateFlag, ebadf, enotsup, enodata, MapDescriptor}
use nikss.Bpf.Exec.{Proc, close_fds}
use nikss.Selector.Types.{Action}
use nikss.Struct.Buffer.{Bytes}
use nikss.Struct.Equal.{bytes_eq}
use nikss.Table.Types.{TableContext, TableCalls, TableEntry}
use nikss.Table.Clear.{is_array, clear_table_cache, clear_if_open, delete_all_map_entries}
use nikss.Table.Emptied.{KeyLaws, delete_all_map_entries_lem}
use nikss.Table.Entry.{
  key_buffer, value_buffer, write_tuple, write_open, write_action, write_built, then_clear_cache,
  table_entry_write, open_tuple, close_after,
}
use nikss.Table.Tuples.{
  Tuple, ternary_table_close_tuple, close_table, mask_of, ternary_table_open_tuple,
}
use nikss.Table.CacheEmpty.Kept.{open_tuple-cache}
mod Kept

closed_world : {W : Type 0} (fd : Option ℕ) (s : Proc W) → (close_fds fd s).world ≡ s.world
closed_world none s = refl
closed_world (some fd) s = refl

-- after a call that has succeeded the cache has no keys
abbrev IsCleared : {W : Type 0} → (W → List Bytes) → Result (Unit {0}) → W → Type 0
IsCleared keys (ok u) w = keys w ≡ []
IsCleared keys (err e) w = Unit {0}
IsCleared keys hangs w = Unit {0}

module _ {W : Type 0} (calls : TableCalls W) (keys : W → ℕ → List Bytes)
    (laws : KeyLaws calls.cached keys) (fuel : ℕ) (cache_fd : ℕ)
    (bounded : (w : W) → length (keys w cache_fd) < fuel) where
  abbrev Cleared : Result (Unit {0}) × Proc W → Type 0
  Cleared (r, s) = IsCleared (λ w. keys w cache_fd) r s.world

  clear_table_cache-Cleared :
      (cache : MapDescriptor) (zero_value : Bytes) (s : Proc W)
      → cache.fd ≡ some cache_fd
      → is_array cache.type ≡ false
      → Cleared (clear_table_cache calls.cached zero_value fuel cache s)
  unfolding clear_table_cache
  clear_table_cache-Cleared cache zero_value s opened kind =
      let (w', run, empty) =
        delete_all_map_entries_lem calls.cached keys laws zero_value cache_fd fuel cache s opened
          kind (bounded s.world) in
      subst Cleared
        (sym (ap (λ o. clear_if_open calls.cached zero_value fuel cache o s) opened ∙ run)) empty

  module _ (ctx : TableContext) (opened : ctx.cache.fd ≡ some cache_fd)
      (kind : is_array ctx.cache.type ≡ false) where
    then_clear_cache-Cleared :
        (r : Result W) (s : Proc W) → Cleared (then_clear_cache calls fuel ctx r s)
    then_clear_cache-Cleared (ok w) s =
        clear_table_cache-Cleared ctx.cache (replicate ctx.cache.value_size 0)
          (record s { world = w }) opened kind
    then_clear_cache-Cleared (err e) s = tt
    then_clear_cache-Cleared hangs s = tt

    write_built-Cleared :
        (flag : UpdateFlag) (mask : Option Bytes) (fd : ℕ) (k v : Result Bytes) (s : Proc W)
        → Cleared (write_built calls fuel ctx flag mask fd k v s)
    write_built-Cleared flag mask fd (ok k) (ok v) s = then_clear_cache-Cleared _ s
    write_built-Cleared flag mask fd (ok k) (err e) s = tt
    write_built-Cleared flag mask fd (ok k) hangs s = tt
    write_built-Cleared flag mask fd (err e) v s = tt
    write_built-Cleared flag mask fd hangs v s = tt

    write_action-Cleared :
        (entry : TableEntry) (flag : UpdateFlag) (mask : Option Bytes) (fd : ℕ)
        (action : Option Action) (s : Proc W)
        → Cleared (write_action calls fuel ctx entry flag mask fd action s)
    write_action-Cleared entry flag mask fd none s = tt
    write_action-Cleared entry flag mask fd (some action) s =
        write_built-Cleared flag mask fd (key_buffer ctx entry)
          (value_buffer ctx.table.value_size ctx entry action) s

    write_open-Cleared :
        (entry : TableEntry) (flag : UpdateFlag) (mask : Option Bytes) (fd : Option ℕ) (s : Proc W)
        → Cleared (write_open calls fuel ctx entry flag mask fd s)
    write_open-Cleared entry flag mask none s = tt
    write_open-Cleared entry flag mask (some fd) s =
        elim (Bool-cases (ctx.table.key_size == 0 || ctx.table.value_size == 0)) [
          | inl t ↦ rw t tt
          | inr f ↦ rw f (write_action-Cleared entry flag mask fd entry.action s)
        ]

    abbrev TupleCleared : Tuple W (Unit {0}) → Type 0
    TupleCleared (r, ctx', s) = Cleared (r, s)

    close_after-Cleared :
        (r : Result (Unit {0})) (s : Proc W)
        → Cleared (r, s)
        → TupleCleared (close_after calls fuel ctx (r, s))
    unfolding ternary_table_close_tuple
    close_after-Cleared r s h = elim (Bool-cases ctx.is_ternary) [
      | inl t ↦ rw t (
          subst (λ w. IsCleared (λ w'. keys w' cache_fd) r w) (sym (closed_world ctx.table.fd s)) h)
      | inr f ↦ rw f h
    ]

  abbrev AllCleared : Tuple W (Unit {0}) → Type 0
  AllCleared (r, ctx, s) = Cleared (r, s)

  write_tuple-Cleared :
      (entry : TableEntry) (flag : UpdateFlag) (r : Result (Option Bytes)) (ctx : TableContext)
      (s : Proc W)
      → ctx.cache.fd ≡ some cache_fd
      → is_array ctx.cache.type ≡ false
      → AllCleared (write_tuple calls fuel entry flag (r, ctx, s))
  write_tuple-Cleared entry flag (ok mask) ctx s opened kind =
      close_after-Cleared ctx opened kind _ _
        (write_open-Cleared ctx opened kind entry flag mask ctx.table.fd s)
  write_tuple-Cleared entry flag (err e) ctx s opened kind =
      close_after-Cleared ctx opened kind (err e) s tt
  write_tuple-Cleared entry flag hangs ctx s opened kind = tt

  -- Let a table, ternary or not, have a cache that is no array and never has as many keys as there
  -- is fuel. Where adding or updating an entry succeeds, the cache has no keys then.
  pub table_entry_write-cache :
      (entry : TableEntry) (flag : UpdateFlag) (ctx ctx' : TableContext) (s s' : Proc W)
      → ctx.cache.fd ≡ some cache_fd
      → is_array ctx.cache.type ≡ false
      → table_entry_write calls fuel entry flag ctx s ≡ (ok tt, ctx', s')
      → keys s'.world cache_fd ≡ []
  unfolding table_entry_write
  table_entry_write-cache entry flag ctx ctx' s s' opened kind run =
      let (r, ctx1, s1) = open_tuple calls fuel entry flag ctx s in
      let same : ctx1.cache ≡ ctx.cache = open_tuple-cache calls fuel entry flag ctx s in
      subst AllCleared run (
        write_tuple-Cleared entry flag r ctx1 s1 (ap (λ m. m.fd) same ∙ opened)
          (ap (λ m. is_array m.type) same ∙ kind))
