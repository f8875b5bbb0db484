-- ===== src/Bpf/Exec.antt =====
-- A function of the library: it returns an error code or a result, and changes the kernel's state
-- and the number of file descriptors that the process holds.
use nikss.Base.{ℕ, ◌+◌, ◌-◌, Option, none, some}
use nikss.Bpf.Types.{Result, ok, err, hangs}

pub record Proc (World : Type 0) : Type 0 where
  pub world : World
  pub open_fds : ℕ

abbrev pub Exec : Type 0 → Type 0 → Type 0
Exec W A = Proc W → Result A × Proc W

module _ {W A : Type 0} where
  abbrev pub pure : A → Exec W A
  pure a s = (ok a, s)

  abbrev pub fail : ℕ → Exec W A
  fail e s = (err e, s)

  abbrev pub give_up : Exec W A
  give_up s = (hangs, s)

  -- a call that only reads the kernel's state
  abbrev pub query : (W → Result A) → Exec W A
  query f s = (f s.world, s)

abbrev pub settle : {W : Type 0} → Result W → Proc W → Result (Unit {0}) × Proc W
settle (ok w) s = (ok tt, record s { world = w })
settle (err e) s = (err e, s)
settle hangs s = (hangs, s)

-- a call that changes the kernel's state
abbrev pub command : {W : Type 0} → (W → Result W) → Exec W (Unit {0})
command f s = settle (f s.world) s

module _ {W A B : Type 0} where
  abbrev pub continue : Result A → (A → Exec W B) → Exec W B
  continue (ok a) f s = f a s
  continue (err e) f s = (err e, s)
  continue hangs f s = (hangs, s)

  infixl 10 ◌>>=◌ ◌>>◌
  abbrev pub ◌>>=◌ : Exec W A → (A → Exec W B) → Exec W B
  ◌>>=◌ m f s = let (r, s') = m s in continue r f s'

  abbrev pub ◌>>◌ : Exec W A → Exec W B → Exec W B
  m >> n = m >>= λ _. n

-- A descriptor is an open handle, or `none` for -1.
abbrev pub opened : {W : Type 0} → Result ℕ → Proc W → Result ℕ × Proc W
opened (ok h) s = (ok h, record s { open_fds = s.open_fds + 1 })
opened (err e) s = (err e, s)
opened hangs s = (hangs, s)

-- a call that returns a new file descriptor
abbrev pub open_fd : {W : Type 0} → (W → Result ℕ) → Exec W ℕ
open_fd f s = opened (f s.world) s

-- `close_object_fd`
abbrev pub close_fds : {W : Type 0} → Option ℕ → Proc W → Proc W
close_fds none s = s
close_fds (some h) s = record s { open_fds = s.open_fds - 1 }

unfoldable pub close_object_fd : {W : Type 0} → Option ℕ → Exec W (Option ℕ)
close_object_fd fd s = (ok none, close_fds fd s)

-- The code after an `err:` label: it runs whether the body has failed or not.
abbrev pub finally : {W A : Type 0} → Exec W A → (Proc W → Proc W) → Exec W A
finally m cleanup s = let (r, s') = m s in (r, cleanup s')
