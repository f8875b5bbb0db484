-- ===== src/Register/Stored.antt =====
-- `nikss_register_set` and `nikss_register_get` of lib/nikss_register.c on the contents of the map.
use nikss.Base.{ℕ, ◌≡◌, ◌∙◌, refl, ap, Option, some, Eq, beq_refl, nat_refl}
use nikss.Bpf.Types.{MapCalls, UpdateLaws, ok, any}
use nikss.Bpf.Exec.{Proc}
use nikss.Struct.Buffer.{Bytes}
use nikss.Struct.Fields.{construct_struct_from_fields, fix_struct_data_byte_order}
use nikss.Register.Access.{
  RegisterEntry, RegisterContext, register_set, register_get, set_at, set_value_at, update_in,
  updated, get_at, with_value, lookup_in,
}

module _ {W : Type 0} ⦃key_eq : Eq Bytes⦄ (calls : MapCalls W Bytes Bytes)
    (contents : W → ℕ → Bytes → Option Bytes) (laws : UpdateLaws calls contents)
    (ctx : RegisterContext) (entry reader : RegisterEntry) (fd : ℕ) (s : Proc W) (w : W)
    (key value : Bytes) (opened : ctx.reg.fd ≡ some fd)
    (keyed : construct_struct_from_fields entry.entry_key ctx.key_fds ctx.reg.key_size ≡ ok key)
    (valued : construct_struct_from_fields entry.entry_value ctx.value_fds ctx.reg.value_size
      ≡ ok value)
    (accepted : calls.update s.world fd key value any ≡ ok w)
    (same : reader.entry_key ≡ entry.entry_key) where
  register_set_lem : register_set calls ctx entry s ≡ (
    (ok tt, record entry { raw_key = some key; raw_value = some value }),
    record s { world = w },
  )
  unfolding register_set
  register_set_lem =
      ap (λ k. set_at calls ctx entry k s) keyed
      ∙ ap (λ v. set_value_at calls ctx entry key v s) valued
      ∙ ap
          (λ o. (
            (
              (update_in calls o key value s).0,
              record entry { raw_key = some key; raw_value = some value },
            ),
            (update_in calls o key value s).1,
          ))
          opened
      ∙ ap
          (λ r. (
            ((updated calls r s).0, record entry { raw_key = some key; raw_value = some value }),
            (updated calls r s).1,
          ))
          accepted

  stored : calls.lookup w fd key ≡ ok value
  stored =
      laws.lookup_find w fd key
      ∙ rw (laws.update_find s.world w fd key value any fd key accepted, nat_refl fd, beq_refl key)
          refl

  -- Let a register be open, let a key and a value be made up of the fields of an entry, and let the
  -- map accept them. Then the register is set; what is read at an entry with the same fields of the
  -- key is the value that was made up, in the byte order of its fields, and the key comes back in
  -- the byte order that the fields of the value give it.
  pub register_get-register_set :
      (register_set calls ctx entry s ≡ (
        (ok tt, record entry { raw_key = some key; raw_value = some value }),
        record s { world = w },
      ))
      × (register_get calls ctx reader w ≡ (
        ok tt,
        record reader {
          raw_key = some (fix_struct_data_byte_order ctx.value_fds ctx.reg.key_size key);
          raw_value = some (fix_struct_data_byte_order ctx.value_fds ctx.reg.value_size value);
        },
      ))
  unfolding register_get
  register_get-register_set = (
    register_set_lem,
    ap
          (λ fs.
            get_at calls ctx reader (construct_struct_from_fields fs ctx.key_fds ctx.reg.key_size)
              w)
          same
        ∙ ap (λ k. get_at calls ctx reader k w) keyed
        ∙ ap (λ o. with_value calls ctx reader key (lookup_in calls o key w)) opened
        ∙ ap (with_value calls ctx reader key) stored,
  )
