-- ===== src/Bpf/Types.antt =====
-- What the library uses of the bpf(2) system call and of libbpf's wrappers (bpf/bpf.h): results with
-- an errno, and the calls on one kind of map as a parameter, with their documented behaviour as
-- laws.
use nikss.Base.{ℕ, ◌≡◌, ◌≢◌, Bool, true, false, Option, none, some, Eq, ◌==◌, if◌then◌else◌}
use Prim.Native.String.{String}

-- `hangs` is a loop of the model that has used up its fuel.
pub data Result (A : Type 0) : Type 0 where
  ok : A → Result A
  err : ℕ → Result A
  hangs : Result A

abbrev pub is_ok : {A : Type 0} → Result A → Bool
is_ok (ok a) = true
is_ok (err e) = false
is_ok hangs = false

-- errno.h, for Linux
abbrev pub eperm : ℕ
eperm = 1

abbrev pub enoent : ℕ
enoent = 2

abbrev pub e2big : ℕ
e2big = 7

abbrev pub ebadf : ℕ
ebadf = 9

abbrev pub eagain : ℕ
eagain = 11

abbrev pub enomem : ℕ
enomem = 12

abbrev pub ebusy : ℕ
ebusy = 16

abbrev pub eexist : ℕ
eexist = 17

abbrev pub einval : ℕ
einval = 22

abbrev pub efbig : ℕ
efbig = 27

abbrev pub enodata : ℕ
enodata = 61

abbrev pub enotsup : ℕ
enotsup = 95

-- BPF_ANY, BPF_NOEXIST, BPF_EXIST
pub data UpdateFlag : Type 0 where
  any noexist exist : UpdateFlag

pub data MapType : Type 0 where
  hash array queue array_of_maps hash_of_maps lpm_trie other : MapType

-- The part of `struct bpf_map_info` that is read.
pub record MapInfo : Type 0 where
  pub type : MapType
  pub key_size : ℕ
  pub value_size : ℕ
  pub max_entries : ℕ

-- `build_ebpf_map_filename`: where an object of a pipeline is pinned.
pub record PinPath : Type 0 where
  pub pipeline_id : ℕ
  pub name : String

-- The calls on the maps with keys `K` and values `V`; a file descriptor is the number of the map that
-- it refers to, the kernel's id of the map.
-- A call that fails leaves the kernel as it was.
pub record MapCalls (World K V : Type 0) : Type 0 where
  -- bpf_map_lookup_elem
  pub lookup : World → ℕ → K → Result V
  -- bpf_map_update_elem
  pub update : World → ℕ → K → V → UpdateFlag → Result World
  -- bpf_map_delete_elem
  pub delete : World → ℕ → K → Result World
  -- bpf_map_get_next_key
  pub next_key : World → ℕ → Option K → Result K

abbrev pub found_or_enoent : {V : Type 0} → Option V → Result V
found_or_enoent none = err enoent
found_or_enoent (some v) = ok v

-- bpf(2): what lookups and updates do to the contents `find` of the maps. An update may fail for lack
-- of room, but not at a key that is there.
pub record UpdateLaws {World K V : Type 0} ⦃key_eq : Eq K⦄ (calls : MapCalls World K V)
    (find : World → ℕ → K → Option V) : Type 0 where
  pub lookup_find : (w : World) (m : ℕ) (k : K) → calls.lookup w m k ≡ found_or_enoent (find w m k)
  pub update_find :
      (w w' : World) (m : ℕ) (k : K) (v : V) (f : UpdateFlag) (n : ℕ) (j : K)
      → calls.update w m k v f ≡ ok w'
      → find w' n j
        ≡ (if m == n then (if key_eq.beq k j then some v else find w n j) else find w n j)
  pub update_noexist :
      (w : World) (m : ℕ) (k : K) (v u : V)
      → find w m k ≡ some u
      → calls.update w m k v noexist ≡ err eexist
  pub update_present :
      (w : World) (m : ℕ) (k : K) (v u : V) (f : UpdateFlag)
      → find w m k ≡ some u
      → f ≢ noexist
      → (w' : World) × (calls.update w m k v f ≡ ok w')

-- The same with deletions, for the maps that allow them (an array does not).
pub record MapLaws {World K V : Type 0} ⦃key_eq : Eq K⦄ (calls : MapCalls World K V)
    (find : World → ℕ → K → Option V) : Type 0 where
  pub updates : UpdateLaws calls find
  pub open updates use *
  pub delete_find :
      (w w' : World) (m : ℕ) (k : K) (n : ℕ) (j : K)
      → calls.delete w m k ≡ ok w'
      → find w' n j ≡ (if m == n then (if key_eq.beq k j then none else find w n j) else find w n j)
  pub delete_present :
      (w : World) (m : ℕ) (k : K) (u : V)
      → find w m k ≡ some u
      → (w' : World) × (calls.delete w m k ≡ ok w')
  pub delete_absent :
      (w : World) (m : ℕ) (k : K) → find w m k ≡ none → (e : ℕ) × (calls.delete w m k ≡ err e)

-- `nikss_bpf_map_descriptor_t`, less its BTF type ids; `fd` is `none` for -1.
pub record MapDescriptor : Type 0 where
  pub fd : Option ℕ
  pub type : MapType
  pub key_size : ℕ
  pub value_size : ℕ
  pub max_entries : ℕ

abbrev pub closed_descriptor : MapDescriptor
closed_descriptor = record {
  fd = none;
  type = other;
  key_size = 0;
  value_size = 0;
  max_entries = 0;
}

-- The calls on objects, of any kind of map.
pub record FileCalls (World : Type 0) : Type 0 where
  -- bpf_obj_get
  pub obj_get : World → PinPath → Result ℕ
  -- bpf_obj_get_info_by_fd
  pub obj_get_info : World → ℕ → Result MapInfo
  -- bpf_map_get_fd_by_id
  pub map_get_fd : World → ℕ → Result ℕ
  -- bpf_create_map_xattr, which leaves the kernel as it was if it fails
  pub create_map : World → MapInfo → Result (ℕ × World)
