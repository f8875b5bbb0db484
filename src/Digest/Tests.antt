-- ===== src/Digest/Tests.antt =====
-- A queue with one digest, and what is read of it.
use nikss.Base.{ℕ, ◌≡◌, refl, none, some, List, [], ◌∷◌, false}
use nikss.Bpf.Types.{Result, ok, err, enoent, ebadf, MapType, closed_descriptor}
use nikss.Bpf.Exec.{Proc}
use nikss.Struct.Buffer.{Bytes}
use nikss.Struct.Fields.{FieldType, DescriptorSet}
use nikss.Struct.FieldWalk.{repeated}
use nikss.Digest.Access.{
  DigestContext, Digest, no_digest, digest_ctx_init, digest_get_next, digest_get_next_field,
}
use nikss.Digest.Fields.{digest_get_next_field-all}

abbrev pop : List Bytes → ℕ → Result (Bytes × List Bytes)
pop [] fd = err enoent
pop (v ∷ vs) fd = ok (v, vs)

-- two fields, of which the second one has 2 bytes
abbrev two_fields : DescriptorSet
two_fields = record {
  fields =
      (record { type = FieldType.data_field; data_offset = 0; data_len = 1 })
      ∷ (record { type = FieldType.data_field; data_offset = 2; data_len = 2 })
      ∷ [];
  decoded_with_btf = false;
}

abbrev ctx : DigestContext
ctx = record {
  queue = record closed_descriptor { fd = some 3; type = MapType.queue; value_size = 4 };
  fds = two_fields;
}

abbrev queued : Proc (List Bytes)
queued = record { world = (1 ∷ 0 ∷ 7 ∷ 8 ∷ []) ∷ []; open_fds = 4 }

closed_run : digest_get_next pop digest_ctx_init queued ≡ (err ebadf, no_digest, queued)
unfolding digest_get_next
closed_run = refl

digest_example :
    (digest : Digest) × (digest_get_next pop ctx queued
      ≡ (ok tt, digest, record queued { world = [] }))
    × (repeated 3 (digest_get_next_field ctx) digest ≡ (
      some (record { type = FieldType.data_field; bytes = some (1 ∷ []); data_len = 1 })
          ∷ some (record { type = FieldType.data_field; bytes = some (7 ∷ 8 ∷ []); data_len = 2 })
          ∷ none
          ∷ [],
      digest,
    ))
unfolding nikss.Struct.Fields.fix_struct_data_byte_order
digest_example = digest_get_next_field-all pop ctx queued 3 (1 ∷ 0 ∷ 7 ∷ 8 ∷ []) [] refl refl refl
