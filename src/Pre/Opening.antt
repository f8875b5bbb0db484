-- ===== src/Pre/Opening.antt =====
-- Opening the maps of a session (lib/nikss_pre.c), where they are there, and closing them.
use Prim.Native.String.{String}
use nikss.Base.{ℕ, ◌+◌, ◌≡◌, some}
use nikss.Bpf.Types.{ok, MapInfo, MapDescriptor}
use nikss.Bpf.Exec.{Proc}
use nikss.Bpf.Open.{build_ebpf_map_filename, open_bpf_map, update_map_info}
use nikss.Pre.Types.{PreCalls, elem_eq}
use nikss.Pre.Maps.{open_pr_map, open_session_map}

-- The outer map `name` of the pipeline `ctx` is there, and has the map `fd` at `session`.
pub record IsOpenable {W : Type 0} (calls : PreCalls W) (w : W) (ctx : ℕ) (name : String)
    (session fd : ℕ) : Type 0 where
  pub outer : ℕ
  pub outer_info : MapInfo
  pub id : ℕ
  pub inner_info : MapInfo
  pub pinned : calls.obj_get w (build_ebpf_map_filename ctx name) ≡ ok outer
  pub described : calls.obj_get_info w outer ≡ ok outer_info
  pub outer_key : outer_info.key_size ≡ 4
  pub outer_value : outer_info.value_size ≡ 4
  pub linked : calls.outer.lookup w outer session ≡ ok id
  pub opened : calls.map_get_fd w id ≡ ok fd
  pub inner_described : calls.obj_get_info w fd ≡ ok inner_info
  pub inner_key : inner_info.key_size ≡ 8
  pub inner_value : inner_info.value_size ≡ 20

abbrev pub descriptor_of : ℕ → MapInfo → MapDescriptor
descriptor_of fd info = record {
  fd = some fd;
  type = info.type;
  key_size = info.key_size;
  value_size = info.value_size;
  max_entries = info.max_entries;
}

abbrev pub with_fds : {W : Type 0} → ℕ → Proc W → Proc W
with_fds n s = record s { open_fds = s.open_fds + n }

module _ {W : Type 0} (calls : PreCalls W) (ctx : ℕ) (name : String) (session fd : ℕ) (s : Proc W)
    (o : IsOpenable calls s.world ctx name session fd) where
  pub open_pr_map_lem :
      open_pr_map calls ctx name s ≡ (ok tt, descriptor_of o.outer o.outer_info, with_fds 1 s)
  unfolding open_pr_map open_bpf_map
  open_pr_map_lem = rw (o.pinned, o.described)

  pub open_session_map_lem :
      (md : MapDescriptor) (n : ℕ)
      → open_session_map calls (descriptor_of o.outer o.outer_info) md session (with_fds n s)
        ≡ (ok tt, descriptor_of fd o.inner_info, with_fds 1 (with_fds n s))
  unfolding open_session_map update_map_info
  open_session_map_lem md n = rw (
    o.outer_key, o.outer_value, o.linked, o.opened, o.inner_described, o.inner_key, o.inner_value,
  )
