-- ===== src/Pre/Scan.antt =====
-- `pre_get_next_session` of lib/nikss_pre.c: the search for the next session.
use nikss.Base.{
  ℕ, zero, suc, ◌+◌, ◌%◌, ◌^◌, ◌<◌, ◌≡◌, Bool, true, false, some, arith, Bool-cases, inl, inr, ◌==◌,
  leb, subst, sym, ==_iff,
}
use nikss.Bpf.Types.{Result, ok, err, enoent, is_ok, MapDescriptor, MapType}
use nikss.Bpf.Exec.{Proc}
use nikss.Pre.Types.{PreCalls}
use nikss.Pre.Walk.{next_session_loop, pre_get_next_session}

module _ {W : Type 0} (calls : PreCalls W) (fd max_entries : ℕ) (w : W) where
  abbrev pub is_there : ℕ → Bool
  is_there n = is_ok (calls.outer.lookup w fd n)

  -- No session is there between the two, both left out.
  abbrev pub NoneBetween : ℕ → ℕ → Type 0
  NoneBetween a b = (n : ℕ) → a < n → n < b → is_there n ≡ false

  -- What the loop returns from the session `current` on.
  pub data NextSession (current : ℕ) : Result (Unit {0}) × ℕ → Type 0 where
    found :
        (n : ℕ)
        → current < n
        → n < max_entries
        → is_there n ≡ true
        → NoneBetween current n
        → NextSession current (ok tt, n)
    finished : NoneBetween current max_entries → NextSession current (err enoent, 0)

  gap :
      (current n : ℕ)
      → NoneBetween (current + 1) n
      → is_there (current + 1) ≡ false
      → NoneBetween current n
  gap current n rest h j lo hi = elim (Bool-cases (j == (current + 1))) [
    | inl same ↦ subst (λ j. is_there j ≡ false) (sym ((==_iff j (current + 1)).0 same)) h
    | inr other ↦ rest j (ground arith) hi
  ]

  skip_one :
      (current : ℕ) (r : Result (Unit {0}) × ℕ)
      → is_there (current + 1) ≡ false
      → NextSession (current + 1) r
      → NextSession current r
  skip_one current _ h (found n lt lt' here none_before) =
      found n (omega arith) lt' here (gap current n none_before h)
  skip_one current _ h (finished none_before) = finished (gap current max_entries none_before h)

  next_session_loop_lem :
      (fuel current : ℕ)
      → max_entries < 2 ^ 32
      → current < max_entries
      → max_entries < fuel + current
      → NextSession current (next_session_loop calls fuel fd max_entries current w)
  unfolding next_session_loop
  next_session_loop_lem zero current small lt enough = absurd (omega arith)
  next_session_loop_lem (suc fuel) current small lt enough =
      let no_wrap : (current + 1) % 2 ^ 32 ≡ current + 1 = omega arith in
      rw no_wrap (elim (Bool-cases (leb max_entries (current + 1))) [
        | inl end ↦ rw end (finished (λ n lo hi. absurd (ground arith)))
        | inr more ↦ rw more (elim (Bool-cases (is_there (current + 1))) [
          | inl here ↦ rw here (
              found (current + 1) (omega arith) (ground arith) here
                (λ n lo hi. absurd (omega arith)))
          | inr not_here ↦ rw not_here (
              skip_one current _ not_here
                (next_session_loop_lem fuel (current + 1) small (ground arith) (omega arith)))
        ])
      ])

-- Over an open array of maps with fewer than 2^32 entries the iteration returns the least session
-- after the current one that can be read, and ENOENT with the cursor at 0 if there is none. As many
-- rounds as the map has entries after the current one, and one more, are enough.
pub pre_get_next_session_lem :
    {W : Type 0} (calls : PreCalls W) (fuel fd current : ℕ) (pr_map : MapDescriptor) (s : Proc W)
    → pr_map.fd ≡ some fd
    → pr_map.type ≡ MapType.array_of_maps
    → pr_map.key_size ≡ 4
    → pr_map.value_size ≡ 4
    → pr_map.max_entries < 2 ^ 32
    → current < pr_map.max_entries
    → pr_map.max_entries < fuel + current
    → NextSession calls fd pr_map.max_entries s.world current
        (pre_get_next_session calls fuel pr_map current s)
unfolding pre_get_next_session
pre_get_next_session_lem calls fuel fd current pr_map s opened type key value small lt enough =
    rw (opened, type, key, value)
      (next_session_loop_lem calls fd pr_map.max_entries s.world fuel current small lt enough)
