-- ===== src/Pre/Iterate.antt =====
-- The iteration over the entries of a session (lib/nikss_pre.c) on its list.
use Prim.Native.String.{String}
use nikss.Base.{
  ℕ, ◌+◌, ◌-◌, ◌≡◌, ◌∙◌, ap, false, ◌&&◌, Option, none, some, arith, ◌==◌, List, [], ◌∷◌,
  if◌then◌else◌,
}
use nikss.Bpf.Types.{Result, ok, err, enodata, einval, MapLaws}
use nikss.Bpf.Exec.{Proc}
use nikss.Pre.Types.{PreCalls, ElemT, CloneSessionEntry, Element, zero_elem, elem_beq, elem_eq}
use nikss.Pre.Entry.{key_of}
use nikss.Pre.Chain.{IsChain, IsChain-head, IsDistinct}
use nikss.Pre.Walk.{
  EntryCursor, rewound, cursor_key, next_in_map, pre_get_next_entry, next_entry_of, begin_in, begin,
  drop_outer,
}
use nikss.Pre.Opening.{IsOpenable, open_pr_map_lem, open_session_map_lem, with_fds, descriptor_of}

abbrev pub at_entry : CloneSessionEntry → EntryCursor → EntryCursor
at_entry x c = record c {
  current_egress_port = x.egress_port;
  current_instance = x.instance;
  current_entry = x;
}

-- What the next call returns, where `xs` are the entries behind the cursor.
abbrev pub next_result : List CloneSessionEntry → EntryCursor → Result (Unit {0}) × EntryCursor
next_result [] c = (err enodata, rewound c)
next_result (x ∷ xs) c = (ok tt, at_entry x c)

not_zero : (k : ElemT) → elem_beq zero_elem k ≡ false → (k.port == 0 && k.instance == 0) ≡ false
not_zero k h = ground arith

module _ {W : Type 0} (calls : PreCalls W) (nodes : W → ℕ → ElemT → Option Element)
    (laws : MapLaws calls.inner nodes) (fd : ℕ) (s : Proc W) where
  pub next_in_map_lem :
      (c : EntryCursor) (k : ElemT) (e : CloneSessionEntry) (xs : List CloneSessionEntry)
      → cursor_key c ≡ k
      → IsChain (nodes s.world fd) k e xs
      → IsDistinct xs
      → next_in_map calls (some fd) c s ≡ (let r = next_result xs c in (r.0, r.1, s))
  next_in_map_lem c k e [] at h d = rw (at, laws.lookup_find s.world fd k, h)
  next_in_map_lem c k e (x ∷ xs) at h d = rw (
    at,
    laws.lookup_find s.world fd k,
    h.0,
    not_zero (key_of x) d.0,
    laws.lookup_find s.world fd (key_of x),
    IsChain-head (nodes s.world fd) (key_of x) x xs h.1,
  )

-- A cursor whose map is open goes on in that map.
pub pre_get_next_entry-open :
    {W : Type 0} (calls : PreCalls W) (ctx session fd : ℕ) (name : String) (c : EntryCursor)
    (s : Proc W)
    → (session == 0) ≡ false
    → c.session_map.fd ≡ some fd
    → pre_get_next_entry calls (some ctx) name session c s ≡ next_in_map calls (some fd) c s
unfolding pre_get_next_entry
pre_get_next_entry-open calls ctx session fd name c s nz opened =
    ap
      (λ b.
        if b then (err einval, c, s) else next_entry_of calls ctx name session c c.session_map.fd s)
      nz
    ∙ ap (λ f. next_entry_of calls ctx name session c f s) opened

-- A closed cursor opens the map of its session, and reads the first entry of the list; the outer
-- map is closed.
pub pre_get_next_entry-closed :
    {W : Type 0} (calls : PreCalls W) (ctx session fd : ℕ) (name : String) (c : EntryCursor)
    (s : Proc W) (o : IsOpenable calls s.world ctx name session fd)
    → (session == 0) ≡ false
    → c.session_map.fd ≡ none
    → pre_get_next_entry calls (some ctx) name session c s
      ≡ next_in_map calls
          (some fd)
          (rewound (record c { session_map = descriptor_of fd o.inner_info }))
          (with_fds 1 s)
unfolding pre_get_next_entry
pre_get_next_entry-closed calls ctx session fd name c s o nz closed =
    ap
      (λ b.
        if b then (err einval, c, s) else next_entry_of calls ctx name session c c.session_map.fd s)
      nz
    ∙ ap (λ f. next_entry_of calls ctx name session c f s) closed
    ∙ ap (begin_in calls c session) (open_pr_map_lem calls ctx name session fd s o)
    ∙ ap (λ r. begin calls c (drop_outer calls (some o.outer) r))
        (open_session_map_lem calls ctx name session fd s o c.session_map 1)
    ∙ (let fds : s.open_fds + 1 + 1 - 1 ≡ s.open_fds + 1 = omega arith in
        ap
          (λ (n : ℕ).
            next_in_map calls (some fd)
              (rewound (record c { session_map = descriptor_of fd o.inner_info }))
              (record s { open_fds = n }))
          fds)
