-- ===== src/Table/Clear.antt =====
-- lib/nikss_table.c: `delete_all_map_entries` and `clear_table_cache`.
use nikss.Base.{ℕ, zero, suc, Bool, true, false, Option, none, some, ◌≡◌, ap}
use nikss.Bpf.Types.{Result, ok, err, hangs, MapCalls, MapDescriptor, MapType, any}
use nikss.Bpf.Exec.{Proc, Exec}

abbrev pub is_array : MapType → Bool
is_array MapType.array = true
is_array MapType.hash = false
is_array MapType.queue = false
is_array MapType.array_of_maps = false
is_array MapType.hash_of_maps = false
is_array MapType.lpm_trie = false
is_array MapType.other = false

-- the world after a call whose result is not looked at
abbrev pub after : {W : Type 0} → Result W → W → W
after (ok w) w' = w
after (err e) w' = w'
after hangs w' = w'

-- `zero_value` is the value of `calloc`. An allocation does not fail here.
module _ {W K V : Type 0} (calls : MapCalls W K V) (zero_value : V) where
  abbrev pub clear_key : Bool → ℕ → K → W → W
  clear_key true fd key w = after (calls.update w fd key zero_value any) w
  clear_key false fd key w = after (calls.delete w fd key) w

  -- The `do … while` loop, where `next` is what bpf_map_get_next_key has returned.
  unfoldable pub clear_from : ℕ → Bool → ℕ → Result K → W → Result (Unit {0}) × W
  clear_from zero array fd next w = (hangs, w)
  clear_from (suc fuel) array fd (ok key) w =
      let w' = clear_key array fd key w in
      clear_from fuel array fd (calls.next_key w' fd (some key)) w'
  clear_from (suc fuel) array fd (err e) w = (ok tt, w)
  clear_from (suc fuel) array fd hangs w = (hangs, w)

  abbrev settled : Result (Unit {0}) × W → Proc W → Result (Unit {0}) × Proc W
  settled (r, w) s = (r, record s { world = w })

  -- A closed map has no next key, so that nothing is done.
  abbrev clear_open : ℕ → MapType → Option ℕ → Exec W (Unit {0})
  clear_open fuel type none s = (ok tt, s)
  clear_open fuel type (some fd) s =
      settled (clear_from fuel (is_array type) fd (calls.next_key s.world fd none) s.world) s

  unfoldable pub delete_all_map_entries : ℕ → MapDescriptor → Exec W (Unit {0})
  delete_all_map_entries fuel map s = clear_open fuel map.type map.fd s

  abbrev pub clear_if_open : ℕ → MapDescriptor → Option ℕ → Exec W (Unit {0})
  clear_if_open fuel map none s = (ok tt, s)
  clear_if_open fuel map (some fd) s = delete_all_map_entries fuel map s

  unfoldable pub clear_table_cache : ℕ → MapDescriptor → Exec W (Unit {0})
  clear_table_cache fuel map s = clear_if_open fuel map map.fd s

  -- Where there is no cache nothing is done.
  pub clear_table_cache-closed :
      (fuel : ℕ) (map : MapDescriptor) (s : Proc W)
      → map.fd ≡ none
      → clear_table_cache fuel map s ≡ (ok tt, s)
  unfolding clear_table_cache
  clear_table_cache-closed fuel map s closed = ap (λ o. clear_if_open fuel map o s) closed
