-- ===== src/Digest/Access.antt =====
-- lib/nikss_digest.c: the queue of digests and the fields of a digest, for pointers that are not
-- null.
use Prim.Native.String.{String}
use nikss.Base.{ℕ, Bool, true, false, Option, none, some, []}
use nikss.Bpf.Types.{
  Result, ok, err, hangs, FileCalls, MapDescriptor, MapType, closed_descriptor, ebadf, enotsup,
}
use nikss.Bpf.Exec.{Proc, close_fds}
use nikss.Bpf.Open.{open_bpf_map}
use nikss.Struct.Buffer.{Bytes}
use nikss.Struct.Fields.{
  DescriptorSet, fix_struct_data_byte_order, setup_struct_field_descriptor_set_no_btf,
}
use nikss.Struct.NextField.{StructField, next_field}

-- `nikss_digest_context_t`, less its BTF
pub record DigestContext : Type 0 where
  pub queue : MapDescriptor
  pub fds : DescriptorSet

-- `nikss_digest_t`, less the field that its iterator returns
pub record Digest : Type 0 where
  pub raw_data : Option Bytes
  pub current_field_id : ℕ

abbrev pub no_digest : Digest
no_digest = record { raw_data = none; current_field_id = 0 }

abbrev pub digest_ctx_init : DigestContext
digest_ctx_init = record {
  queue = closed_descriptor;
  fds = record { fields = []; decoded_with_btf = false };
}

unfoldable pub digest_ctx_free : {W : Type 0} → DigestContext → Proc W → DigestContext × Proc W
digest_ctx_free ctx s = (
  record ctx { queue = record ctx.queue { fd = none }; fds = record ctx.fds { fields = [] } },
  close_fds ctx.queue.fd s,
)

-- `nikss_digest_free`, which leaves nothing of the digest
abbrev pub digest_free : Digest → Digest
digest_free digest = no_digest

abbrev is_queue : MapType → Bool
is_queue MapType.queue = true
is_queue MapType.hash = false
is_queue MapType.array = false
is_queue MapType.array_of_maps = false
is_queue MapType.hash_of_maps = false
is_queue MapType.lpm_trie = false
is_queue MapType.other = false

module _ {W : Type 0} (files : FileCalls W) where
  abbrev Named : Type 0
  Named = Result (Unit {0}) × DigestContext × Proc W

  abbrev named_queue : DigestContext → MapDescriptor → Proc W → Bool → Named
  named_queue ctx md s true = (
    ok tt,
    record ctx { queue = md; fds = setup_struct_field_descriptor_set_no_btf md.value_size },
    s,
  )
  named_queue ctx md s false =
      (err enotsup, record ctx { queue = record md { fd = none } }, close_fds md.fd s)

  abbrev named : DigestContext → Result (Unit {0}) × MapDescriptor × Proc W → Named
  named ctx (ok u, md, s) = named_queue ctx md s (is_queue md.type)
  named ctx (err e, md, s) = (err e, record ctx { queue = md }, s)
  named ctx (hangs, md, s) = (hangs, record ctx { queue = md }, s)

  -- Without BTF, for a context that is initialised. EOPNOTSUPP is the same number as ENOTSUP.
  unfoldable pub digest_ctx_name : ℕ → String → DigestContext → Proc W → Named
  unfolding open_bpf_map
  digest_ctx_name pipeline_id name ctx s =
      named ctx (open_bpf_map files pipeline_id name ctx.queue s)

-- `pop` is bpf_map_lookup_and_delete_elem: the oldest value of the queue, which it takes out.
module _ {W : Type 0} (pop : W → ℕ → Result (Bytes × W)) where
  abbrev pub popped :
      DigestContext → Result (Bytes × W) → Proc W → Result (Unit {0}) × Digest × Proc W
  popped ctx (ok (value, w)) s = (
    ok tt,
    record no_digest {
      raw_data = some (fix_struct_data_byte_order ctx.fds ctx.queue.value_size value);
    },
    record s { world = w },
  )
  popped ctx (err e) s = (err e, no_digest, s)
  popped ctx hangs s = (hangs, no_digest, s)

  abbrev pub next_in : DigestContext → Option ℕ → Proc W → Result (Unit {0}) × Digest × Proc W
  next_in ctx none s = (err ebadf, no_digest, s)
  next_in ctx (some fd) s = popped ctx (pop s.world fd) s

  -- The digest of the caller is overwritten.
  unfoldable pub digest_get_next : DigestContext → Proc W → Result (Unit {0}) × Digest × Proc W
  unfolding fix_struct_data_byte_order
  digest_get_next ctx s = next_in ctx ctx.queue.fd s

unfoldable pub digest_get_next_field : DigestContext → Digest → Option StructField × Digest
unfolding next_field
digest_get_next_field ctx digest =
    let (field, id) = next_field ctx.fds digest.raw_data digest.current_field_id in
    (field, record digest { current_field_id = id })
