-- ===== src/Pre/Blocked.antt =====
-- Which deletions of lib/nikss_pre.c succeed, and the part that entries with a port or an instance
-- 0 play.
use Prim.Native.String.{String}
use nikss.Base.{
  ℕ, ◌≡◌, refl, Bool, true, false, ◌||◌, ◌&&◌, not, Option, some, arith, ◌==◌, List, [], ◌∷◌,
  length, ◌<◌, if◌then◌else◌,
}
use nikss.Bpf.Types.{ok, err, enoent, MapLaws}
use nikss.Bpf.Exec.{Proc}
use nikss.Pre.Types.{PreCalls, ElemT, CloneSessionEntry, Element, zero_elem, elem_beq, elem_eq}
use nikss.Pre.Entry.{key_of, pre_session_del_entry}
use nikss.Pre.Chain.{has_key, erase, IsSession}
use nikss.Pre.Find.{walk_finds}
use nikss.Pre.Opening.{IsOpenable}
use nikss.Pre.Update.{pre_session_del_entry_lem}

abbrev pub has_zero : CloneSessionEntry → Bool
has_zero x = x.egress_port == 0 || x.instance == 0

abbrev pub no_zeros : List CloneSessionEntry → Bool
no_zeros [] = true
no_zeros (x ∷ xs) = not (has_zero x) && no_zeros xs

walk_finds-no_zeros :
    (t : ElemT) (xs : List CloneSessionEntry) → no_zeros xs ≡ true → walk_finds t xs ≡ has_key t xs
walk_finds-no_zeros t [] h = refl
walk_finds-no_zeros t (x ∷ xs) h = ground (arith, walk_finds-no_zeros t xs)

-- the key stands behind an entry with a 0, and not at or before it
abbrev pub is_hidden : ElemT → List CloneSessionEntry → Bool
is_hidden t [] = false
is_hidden t (x ∷ xs) =
    if elem_beq (key_of x) t then false else if has_zero x then has_key t xs else is_hidden t xs

walk_finds-is_hidden :
    (t : ElemT) (xs : List CloneSessionEntry) → is_hidden t xs ≡ true → walk_finds t xs ≡ false
walk_finds-is_hidden t [] h = refl
walk_finds-is_hidden t (x ∷ xs) h = ground (arith, walk_finds-is_hidden t xs)

is_hidden-has_key :
    (t : ElemT) (xs : List CloneSessionEntry) → is_hidden t xs ≡ true → has_key t xs ≡ true
is_hidden-has_key t [] h = h
is_hidden-has_key t (x ∷ xs) h = ground (arith, is_hidden-has_key t xs)

module _ {W : Type 0} (calls : PreCalls W) (nodes : W → ℕ → ElemT → Option Element)
    (laws : MapLaws calls.inner nodes) (ctx : ℕ) (name : String) (session fd : ℕ) (s : Proc W)
    (o : IsOpenable calls s.world ctx name session fd) (entry : CloneSessionEntry)
    (nz : elem_beq zero_elem (key_of entry) ≡ false) (xs : List CloneSessionEntry)
    (list : IsSession (nodes s.world fd) xs) (fuel : ℕ) (enough : length xs < fuel) where
  -- On a session whose maps can be opened and whose inner map holds a list of distinct entries, and
  -- for an entry whose port and instance are not both 0: if no entry of the list has a port or an
  -- instance of 0, the deletion succeeds and takes the entry out exactly if it is in the list, and
  -- is ENOENT with nothing changed if it is not. One round more than there are entries is enough.
  pub pre_session_del_entry-no_zeros :
      no_zeros xs ≡ true
      → (w' : W) × (pre_session_del_entry calls fuel (some ctx) name session (some entry) s ≡ (
          if has_key (key_of entry) xs then (ok tt, record s { world = w' }) else (err enoent, s)))
        × IsSession
            (nodes w' fd)
            (if has_key (key_of entry) xs then erase (key_of entry) xs else xs)
  pre_session_del_entry-no_zeros h = rw (← walk_finds-no_zeros (key_of entry) xs h) (
      pre_session_del_entry_lem calls ctx name session fd s o entry nz nodes laws xs list fuel
        enough)

  -- On a session whose maps can be opened and whose inner map holds a list of distinct entries, and
  -- for an entry whose port and instance are not both 0: if it stands in the list behind one whose
  -- port or instance is 0, it cannot be deleted: the result is ENOENT, nothing changes, and the
  -- entry is still in the list. One round more than there are entries is enough.
  pub pre_session_del_entry-is_hidden :
      is_hidden (key_of entry) xs ≡ true
      → (pre_session_del_entry calls fuel (some ctx) name session (some entry) s ≡ (err enoent, s))
        × (has_key (key_of entry) xs ≡ true)
  pre_session_del_entry-is_hidden h =
      let (w, run, list') =
        pre_session_del_entry_lem calls ctx name session fd s o entry nz nodes laws xs list fuel
          enough in
      (rw (walk_finds-is_hidden (key_of entry) xs h) at run, is_hidden-has_key (key_of entry) xs h)
