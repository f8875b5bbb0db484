-- ===== src/Pre/Walk.antt =====
-- lib/nikss_pre.c: the iterations over the entries of a session or group, and over the sessions.
use Prim.Native.String.{String}
use nikss.Base.{
  ℕ, zero, suc, ◌+◌, ◌%◌, ◌^◌, not, ◌&&◌, ◌||◌, Option, none, some, ◌==◌, leb, if◌then◌else◌,
}
use nikss.Bpf.Types.{Result, ok, err, hangs, enoent, einval, enodata, MapDescriptor, is_ok}
use nikss.Bpf.Exec.{Proc, close_fds}
use nikss.Bpf.Open.{Opening}
use nikss.Pre.Types.{PreCalls, ElemT, CloneSessionEntry, Element}
use nikss.Pre.Maps.{open_pr_map, open_session_map, is_outer_map}
use nikss.Pre.Session.{is_array_of_maps}

-- The fields of a context that the iteration over the entries reads and writes.
pub record EntryCursor : Type 0 where
  pub session_map : MapDescriptor
  pub current_egress_port : ℕ
  pub current_instance : ℕ
  pub current_entry : CloneSessionEntry

abbrev pub rewound : EntryCursor → EntryCursor
rewound c = record c { current_egress_port = 0; current_instance = 0 }

abbrev pub cursor_key : EntryCursor → ElemT
cursor_key c = record { port = c.current_egress_port; instance = c.current_instance }

module _ {W : Type 0} (calls : PreCalls W) where
  -- `Read next entry`, and the code at `no_more_entries:`
  abbrev pub take_entry :
      Result Element → EntryCursor → Proc W → Result (Unit {0}) × EntryCursor × Proc W
  take_entry (ok value) c s = (
    ok tt,
    record c {
      current_egress_port = value.entry.egress_port;
      current_instance = value.entry.instance;
      current_entry = value.entry;
    },
    s,
  )
  take_entry (err e) c s = (err enodata, rewound c, s)
  take_entry hangs c s = (hangs, c, s)

  abbrev pub follow :
      ℕ → Result Element → EntryCursor → Proc W → Result (Unit {0}) × EntryCursor × Proc W
  follow fd (ok value) c s =
      if value.next_id.port == 0 && value.next_id.instance == 0
      then (err enodata, rewound c, s)
      else take_entry (calls.inner.lookup s.world fd value.next_id) c s
  follow fd (err e) c s = (err enodata, rewound c, s)
  follow fd hangs c s = (hangs, c, s)

  abbrev pub next_in_map :
      Option ℕ → EntryCursor → Proc W → Result (Unit {0}) × EntryCursor × Proc W
  next_in_map none c s = (err enodata, rewound c, s)
  next_in_map (some fd) c s = follow fd (calls.inner.lookup s.world fd (cursor_key c)) c s

  -- The map of the session is kept in the cursor, also where it is refused.
  abbrev pub begin : EntryCursor → Opening W → Result (Unit {0}) × EntryCursor × Proc W
  begin c (ok u, session_map, s) =
      next_in_map session_map.fd (rewound (record c { session_map = session_map })) s
  begin c (err e, session_map, s) = (err e, record c { session_map = session_map }, s)
  begin c (hangs, session_map, s) = (hangs, c, s)

  -- The outer map is closed as soon as the session's map is open.
  abbrev pub drop_outer : Option ℕ → Opening W → Opening W
  drop_outer fd (r, md, s) = (r, md, close_fds fd s)

  abbrev pub begin_in : EntryCursor → ℕ → Opening W → Result (Unit {0}) × EntryCursor × Proc W
  begin_in c session (ok u, pr_map, s) =
      begin c (drop_outer pr_map.fd (open_session_map calls pr_map c.session_map session s))
  begin_in c session (err e, pr_map, s) = (err e, c, s)
  begin_in c session (hangs, pr_map, s) = (hangs, c, s)

  abbrev pub next_entry_of :
      ℕ → String → ℕ → EntryCursor → Option ℕ → Proc W → Result (Unit {0}) × EntryCursor × Proc W
  next_entry_of ctx pr_map_name session c none s =
      begin_in c session (open_pr_map calls ctx pr_map_name s)
  next_entry_of ctx pr_map_name session c (some fd) s = next_in_map (some fd) c s

  unfoldable pub pre_get_next_entry :
      Option ℕ → String → ℕ → EntryCursor → Proc W → Result (Unit {0}) × EntryCursor × Proc W
  pre_get_next_entry none pr_map_name session c s = (err einval, c, s)
  pre_get_next_entry (some ctx) pr_map_name session c s =
      if session == 0
      then (err einval, c, s)
      else next_entry_of ctx pr_map_name session c c.session_map.fd s

  -- The `while (true)` loop of `pre_get_next_session`, with the session that is current.
  unfoldable pub next_session_loop : ℕ → ℕ → ℕ → ℕ → W → Result (Unit {0}) × ℕ
  next_session_loop zero fd max_entries current w = (hangs, current)
  next_session_loop (suc fuel) fd max_entries current w =
      let next = (current + 1) % 2 ^ 32 in
      let rest = next_session_loop fuel fd max_entries next w in
      if leb max_entries next
      then (err enoent, 0)
      else if is_ok (calls.outer.lookup w fd next)
      then (ok tt, next)
      else rest

  abbrev next_session_in : ℕ → MapDescriptor → Option ℕ → ℕ → W → Result (Unit {0}) × ℕ
  next_session_in fuel pr_map none current w = (err einval, current)
  next_session_in fuel pr_map (some fd) current w =
      if not (is_array_of_maps pr_map.type) || not (is_outer_map pr_map)
      then (err einval, current)
      else next_session_loop fuel fd pr_map.max_entries current w

  unfoldable pub pre_get_next_session : ℕ → MapDescriptor → ℕ → Proc W → Result (Unit {0}) × ℕ
  pre_get_next_session fuel pr_map current s = next_session_in fuel pr_map pr_map.fd current s.world
