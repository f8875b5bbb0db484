-- ===== src/Direct/Found.antt =====
-- The loops of lib/nikss_direct_counter.c and lib/nikss_direct_meter.c, which are alike: by the name
-- of an object of a table, and by the index of an object of an entry.
use Prim.Native.String.{String}
use text.Mathlib.Text.{◌==◌}
use nikss.Base.{ℕ, ◌+◌, Bool, false, Option, none, some, List, [], ◌∷◌, if◌then◌else◌}

abbrev is_name : Option String → String → Bool
is_name none name = false
is_name (some n) name = n == name

-- The loop from `i` on: the first object with the name, and its position.
unfoldable pub find_name : {A : Type 0} → (A → Option String) → String → ℕ → List A → Option (ℕ × A)
find_name name_of name i [] = none
find_name name_of name i (c ∷ cs) =
    let rest = find_name name_of name (i + 1) cs in
    if is_name (name_of c) name then some (i, c) else rest
