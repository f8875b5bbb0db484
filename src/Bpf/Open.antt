-- ===== src/Bpf/Open.antt =====
-- lib/btf.c and lib/common.c: opening a pinned map. The BTF of the map's types is not modelled.
use Prim.Native.String.{String}
use nikss.Base.{ℕ, ◌+◌, Option, none, some}
use nikss.Bpf.Types.{Result, ok, err, hangs, ebadf, MapInfo, PinPath, MapDescriptor, FileCalls}
use nikss.Bpf.Exec.{Proc}

-- What a function gives back that fills in a descriptor: its error code, the descriptor, which is
-- written also where the function fails, and the process.
abbrev pub Opening : Type 0 → Type 0
Opening W = Result (Unit {0}) × MapDescriptor × Proc W

-- The path of a map's pin, less the spelling of `/sys/fs/bpf/pipeline%u/maps/%s`.
abbrev pub build_ebpf_map_filename : ℕ → String → PinPath
build_ebpf_map_filename pipeline_id name = record { pipeline_id = pipeline_id; name = name }

module _ {W : Type 0} (calls : FileCalls W) where
  abbrev pub fill_map_info : Result MapInfo → MapDescriptor → Proc W → Opening W
  fill_map_info (ok info) md s = (
    ok tt,
    record md {
      type = info.type;
      key_size = info.key_size;
      value_size = info.value_size;
      max_entries = info.max_entries;
    },
    s,
  )
  fill_map_info (err e) md s = (err e, md, s)
  fill_map_info hangs md s = (hangs, md, s)

  abbrev pub info_of_fd : Option ℕ → MapDescriptor → Proc W → Opening W
  info_of_fd none md s = (err ebadf, md, s)
  info_of_fd (some fd) md s = fill_map_info (calls.obj_get_info s.world fd) md s

  unfoldable pub update_map_info : MapDescriptor → Proc W → Opening W
  update_map_info md s = info_of_fd md.fd md s

  abbrev pub use_pinned : Result ℕ → MapDescriptor → Proc W → Opening W
  use_pinned (ok fd) md s =
      update_map_info (record md { fd = some fd }) (record s { open_fds = s.open_fds + 1 })
  use_pinned (err e) md s = (err e, record md { fd = none }, s)
  use_pinned hangs md s = (hangs, md, s)

  -- A descriptor whose information cannot be read stays open.
  unfoldable pub open_bpf_map : ℕ → String → MapDescriptor → Proc W → Opening W
  unfolding update_map_info
  open_bpf_map pipeline_id name md s =
      use_pinned (calls.obj_get s.world (build_ebpf_map_filename pipeline_id name)) md s
