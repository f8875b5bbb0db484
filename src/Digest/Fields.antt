-- ===== src/Digest/Fields.antt =====
-- What is read of a digest: `nikss_digest_get_next` and `nikss_digest_get_next_field` of
-- lib/nikss_digest.c.
use nikss.Base.{ℕ, suc, ◌≡◌, ◌∙◌, refl, ap, true, some, [], length}
use nikss.Bpf.Types.{Result, ok}
use nikss.Bpf.Exec.{Proc}
use nikss.Struct.Buffer.{Bytes}
use nikss.Struct.Fields.{fix_struct_data_byte_order}
use nikss.Struct.FieldWalk.{repeated, all_known, every_field, walk}
use nikss.Digest.Access.{
  DigestContext, Digest, no_digest, digest_get_next, digest_get_next_field, next_in, popped,
}

-- Let a queue be open and let it give a value, and let the type of every field be known. Then the
-- next digest holds the value in the byte order of its fields; calling the iterator once more than
-- there are fields gives all of them in order, each with its part of the value, and then no field,
-- and leaves the digest as it was, so that it can be gone through again.
pub digest_get_next_field-all :
    {W : Type 0} (pop : W → ℕ → Result (Bytes × W)) (ctx : DigestContext) (s : Proc W) (fd : ℕ)
    (value : Bytes) (w : W)
    → ctx.queue.fd ≡ some fd
    → pop s.world fd ≡ ok (value, w)
    → all_known ctx.fds.fields ≡ true
    → (digest : Digest) × (digest_get_next pop ctx s ≡ (ok tt, digest, record s { world = w }))
      × (repeated (suc (length ctx.fds.fields)) (digest_get_next_field ctx) digest ≡ (
        every_field
            (some (fix_struct_data_byte_order ctx.fds ctx.queue.value_size value))
            ctx.fds.fields,
        digest,
      ))
unfolding digest_get_next digest_get_next_field
digest_get_next_field-all pop ctx s fd value w opened gives known =
    let fixed : Bytes = fix_struct_data_byte_order ctx.fds ctx.queue.value_size value in
    (
      record no_digest { raw_data = some fixed },
      ap (λ o. next_in pop ctx o s) opened ∙ ap (λ r. popped pop ctx r s) gives,
      walk ctx.fds (some fixed) (digest_get_next_field ctx)
          (λ id. record { raw_data = some fixed; current_field_id = id }) (λ id. refl)
          ctx.fds.fields [] refl known,
    )
