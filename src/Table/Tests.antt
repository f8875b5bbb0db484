-- ===== src/Table/Tests.antt =====
-- An example of clearing a map.
use nikss.Base.{ℕ, ◌≡◌, refl, some, List, [], ◌∷◌, arith, nat_eq}
use nikss.Bpf.Types.{ok, MapCalls, MapDescriptor, MapType}
use nikss.Bpf.Exec.{Proc}
use nikss.Bpf.Assoc.{keys, assoc_calls}
use nikss.Table.Clear.{delete_all_map_entries}
use nikss.Table.Emptied.{delete_all_map_entries_lem}
use nikss.Table.AssocKeys.{assoc_calls-KeyLaws}

abbrev Entries : Type 0
Entries = List (ℕ × ℕ × ℕ)

abbrev calls : MapCalls Entries ℕ ℕ
calls = assoc_calls 8 (λ t. t) (λ w t. t)

abbrev full : Proc Entries
full = record { world = (3, 1, 5) ∷ (4, 2, 6) ∷ (3, 2, 7) ∷ []; open_fds = 4 }

abbrev cached : MapDescriptor
cached = record { fd = some 3; type = MapType.hash; key_size = 4; value_size = 4; max_entries = 8 }

clear_example :
    (t : Entries) × (delete_all_map_entries calls 0 3 cached full
      ≡ (ok tt, record full { world = t }))
    × (keys t 3 ≡ [])
clear_example =
    delete_all_map_entries_lem calls (λ t m. keys t m) (assoc_calls-KeyLaws 8) 0 3 3 cached full
      refl refl (omega arith)
