-- ===== src/Table/Emptied.antt =====
-- `delete_all_map_entries` of lib/nikss_table.c on the keys of a map.
use nikss.Base.{
  ℕ, zero, suc, ◌<◌, ◌≤◌, ◌≡◌, ◌∙◌, refl, ap, Bool, false, ◌||◌, none, some, List, [], ◌∷◌, length,
  Eq, if◌then◌else◌, arith, beq_refl,
}
use nikss.Bpf.Types.{Result, ok, err, enoent, MapCalls, MapDescriptor}
use nikss.Bpf.Exec.{Proc}
use nikss.Table.Clear.{clear_from, delete_all_map_entries, is_array}

abbrev pub first_of : {K : Type 0} → List K → Result K
first_of [] = err enoent
first_of (k ∷ ks) = ok k

module _ {K : Type 0} ⦃e : Eq K⦄ where
  abbrev pub is_listed : K → List K → Bool
  is_listed k [] = false
  is_listed k (j ∷ ks) = e.beq j k || is_listed k ks

  abbrev pub without : K → List K → List K
  without k [] = []
  without k (j ∷ ks) = if e.beq j k then without k ks else j ∷ without k ks

  pub is_listed-without : (k : K) (ks : List K) → is_listed k (without k ks) ≡ false
  is_listed-without k [] = refl
  is_listed-without k (j ∷ ks) = ground (arith, is_listed-without k ks)

  pub length-without : (k : K) (ks : List K) → length (without k ks) ≤ length ks
  length-without k [] = omega arith
  length-without k (j ∷ ks) = ground (arith, length-without k ks)

-- bpf_map_get_next_key lists the keys of a map, and starts again at a key that is not there.
pub record KeyLaws {W K V : Type 0} ⦃e : Eq K⦄ (calls : MapCalls W K V) (keys : W → ℕ → List K)
    : Type 0 where
  pub next_first : (w : W) (m : ℕ) → calls.next_key w m none ≡ first_of (keys w m)
  pub next_restarts :
      (w : W) (m : ℕ) (k : K)
      → is_listed k (keys w m) ≡ false
      → calls.next_key w m (some k) ≡ first_of (keys w m)
  pub delete_listed :
      (w : W) (m : ℕ) (k : K) (ks : List K)
      → keys w m ≡ k ∷ ks
      → (w' : W) × (calls.delete w m k ≡ ok w') × (keys w' m ≡ without k (keys w m))

module _ {W K V : Type 0} ⦃e : Eq K⦄ (calls : MapCalls W K V) (keys : W → ℕ → List K)
    (laws : KeyLaws calls keys) (zero_value : V) (fd : ℕ) where
  clear_from_lem :
      (fuel : ℕ) (ks : List K) (w : W)
      → keys w fd ≡ ks
      → length ks < fuel
      → (w' : W) × (clear_from calls zero_value fuel false fd (first_of ks) w ≡ (ok tt, w'))
        × (keys w' fd ≡ [])
  unfolding clear_from
  clear_from_lem zero ks w h lt = elim lt [ ]
  clear_from_lem (suc fuel) [] w h lt = (w, refl, h)
  clear_from_lem (suc fuel) (k ∷ ks) w h lt =
      let (w1, deleted, rest) = laws.delete_listed w fd k ks h in
      let rest' : keys w1 fd ≡ without k ks = rest ∙ ap (without k) h ∙ rw (beq_refl k) in
      let gone : is_listed k (keys w1 fd) ≡ false = rw rest' (is_listed-without k ks) in
      let (w', run, empty) =
        clear_from_lem fuel (without k ks) w1 rest' (omega (arith, length-without k ks)) in
      (w', rw (deleted, laws.next_restarts w1 fd k gone, rest') run, empty)

  -- Let a map be open that is not an array, in a kernel whose iteration starts again at a key that
  -- is gone. Clearing the map succeeds and leaves it without keys; one round more than it has keys
  -- is enough.
  pub delete_all_map_entries_lem :
      (fuel : ℕ) (map : MapDescriptor) (s : Proc W)
      → map.fd ≡ some fd
      → is_array map.type ≡ false
      → length (keys s.world fd) < fuel
      → (w' : W) × (delete_all_map_entries calls zero_value fuel map s
          ≡ (ok tt, record s { world = w' }))
        × (keys w' fd ≡ [])
  unfolding delete_all_map_entries
  delete_all_map_entries_lem fuel map s opened kind lt =
      let (w', run, empty) = clear_from_lem fuel (keys s.world fd) s.world refl lt in
      (w', rw (opened, kind, laws.next_first s.world fd, run), empty)
