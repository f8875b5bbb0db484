-- ===== src/Selector/MemberAction.antt =====
-- The action of a member of a selector, in the contents of the table of members: what is written by
-- `nikss_action_selector_update_member` is what is read of the member.
use nikss.Base.{
  ℕ, ◌+◌, ◌<◌, ◌^◌, ◌≡◌, ◌≢◌, ◌∙◌, sym, refl, ap, false, Option, none, some, [], ◌++◌, length,
  length-append, arith, nat_refl,
}
use nikss.Bpf.Types.{Result, ok, UpdateLaws, found_or_enoent, exist, noexist, MapDescriptor}
use nikss.Bpf.Exec.{Proc}
use nikss.Counter.Value.{to_bytes, of_bytes, of_bytes-to_bytes}
use nikss.Struct.Buffer.{Bytes}
use nikss.Struct.Equal.{bytes_eq, bytes_beq, bytes_beq_iff}
use nikss.Struct.Constructed.{concat}
use nikss.Table.Types.{TableCalls, TableContext}
use nikss.Table.Clear.{is_array}
use nikss.Table.Get.{parse_table_value, entry_of}
use nikss.Table.MatchKey.{matchkey_init}
use nikss.Table.Keys.{is_lpm_trie}
use nikss.Table.Values.{blob, parse_table_value_no_btf}
use nikss.Table.Entry.{table_entry_update}
use nikss.Table.Encoded.{parse_table_value_no_btf_lem}
use nikss.Table.Stored.{KeyFits, Fits, get_lem, found, written_lem}
use nikss.Selector.Types.{SelectorCalls, SelectorContext, MemberContext, Action}
use nikss.Selector.Members.{update_member, update_in, settled}
use nikss.Selector.Iterate.{get_member_action}
use nikss.Selector.TableEntry.{
  table_of, entry_at, table_update, table_get, with_tables, run_in, action_read, zero_descriptor,
}

-- The map of members is open, its keys are references, and its values have room for just this action.
pub record HasRoom (ctx : SelectorContext) (action : Action) (fd : ℕ) : Type 0 where
  pub opened : ctx.map_of_members.fd ≡ some fd
  pub key_sized : ctx.map_of_members.key_size ≡ 4
  pub value_sized : ctx.map_of_members.value_size ≡ 4 + length (concat action.params)
  pub no_trie : is_lpm_trie ctx.map_of_members.type ≡ false
  pub no_array : is_array ctx.map_of_members.type ≡ false
  pub uncached : ctx.cache.fd ≡ none

exist-noexist : exist ≢ noexist
exist-noexist e = cc

module _ (ctx : SelectorContext) (action : Action) (fd : ℕ) (room : HasRoom ctx action fd) where
  abbrev written_table : TableContext
  written_table = table_of ctx.map_of_members ctx.cache

  abbrev read_table : TableContext
  read_table = table_of ctx.map_of_members zero_descriptor

  key_fitting :
      (cache : MapDescriptor) (ref : ℕ) (a : Option Action)
      → KeyFits (table_of ctx.map_of_members cache) (entry_at ref a) fd
  key_fitting cache ref a = record {
    plain = refl;
    untyped = refl;
    no_trie = room.no_trie;
    opened = room.opened;
    key_sized = ground (arith, room.key_sized);
    value_sized = ground (arith, room.value_sized);
    key_fits = sym room.key_sized;
  }

  fitting : (ref : ℕ) → Fits written_table (entry_at ref (some action)) action fd
  fitting ref = record {
    keys = key_fitting ctx.cache ref (some action);
    no_array = room.no_array;
    acting = refl;
    value_fits =
        length-append (to_bytes 4 action.action_id) (concat action.params) ∙ sym room.value_sized;
  }

  read_lem :
      {W : Type 0} (calls : TableCalls W) (fuel ref : ℕ) (w : W)
      → table_get calls fuel ctx.map_of_members ref w
        ≡ action_read (
            parse_table_value written_table
              (entry_at ref none).match_keys
              (calls.entries.lookup w fd (to_bytes 4 ref)))
  unfolding table_get parse_table_value_no_btf
  read_lem calls fuel ref w = ap action_read (
      get_lem read_table (entry_at ref none) fd (key_fitting zero_descriptor ref none) calls fuel
        (run_in w) (record matchkey_init { bytes = some (to_bytes 4 ref) }) [] refl)

-- different numbers are different keys
keys_differ :
    (i j : ℕ) → i < 2 ^ 32 → j < 2 ^ 32 → i ≢ j → bytes_beq (to_bytes 4 i) (to_bytes 4 j) ≡ false
keys_differ i j lt lt' differ =
    let same : to_bytes 4 i ≡ to_bytes 4 j → i ≡ j =
      λ e. sym (of_bytes-to_bytes 4 i lt) ∙ ap of_bytes e ∙ of_bytes-to_bytes 4 j lt' in
    ground (arith, bytes_beq_iff (to_bytes 4 i) (to_bytes 4 j), same)

module _ {W : Type 0} (selector : SelectorCalls W) (calls : TableCalls W) (fuel : ℕ)
    (contents : W → ℕ → Bytes → Option Bytes) (laws : UpdateLaws calls.entries contents)
    (ctx : SelectorContext) (m : MemberContext) (fd : ℕ) (room : HasRoom ctx m.action fd) where
  abbrev linked : SelectorCalls W
  linked = with_tables calls fuel selector

  abbrev bytes : Bytes
  bytes = to_bytes 4 m.action.action_id ++ concat m.action.params

  update-run :
      (s : Proc W) (w : W)
      → calls.entries.update s.world fd (to_bytes 4 m.member_ref) bytes exist ≡ ok w
      → update_member linked (some ctx) (some m) s ≡ (ok tt, record s { world = w })
  unfolding update_member table_update table_entry_update
  update-run s w updated =
      ap (λ o. update_in linked ctx m o s) room.opened
      ∙ ap (λ r. settled (r.0, r.2.world) s)
          (written_lem (written_table ctx m.action fd room) (entry_at m.member_ref (some m.action))
            m.action fd (fitting ctx m.action fd room m.member_ref) calls fuel (run_in s.world)
            contents laws exist w room.uncached updated)

  -- what is read of a member, where its entry is known to hold a value
  read-found :
      (w : W)
      → m.action.action_id < 2 ^ 32
      → calls.entries.lookup w fd (to_bytes 4 m.member_ref) ≡ ok bytes
      → get_member_action linked ctx m w
        ≡ ok (record { action_id = m.action.action_id; params = blob (concat m.action.params) })
  read-found w lt there =
      read_lem ctx m.action fd room calls fuel m.member_ref w
      ∙ ap
          (λ r. action_read (
            parse_table_value (written_table ctx m.action fd room)
              (entry_at m.member_ref none).match_keys r))
          there
      ∙ ap (λ p. action_read (entry_of (entry_at m.member_ref none).match_keys p))
          (parse_table_value_no_btf_lem (written_table ctx m.action fd room)
            (entry_at m.member_ref (some m.action)) m.action lt (omega arith))

  -- another entry is found as before
  lookup-other :
      (w w' : W) (ref : ℕ)
      → calls.entries.update w fd (to_bytes 4 m.member_ref) bytes exist ≡ ok w'
      → bytes_beq (to_bytes 4 m.member_ref) (to_bytes 4 ref) ≡ false
      → calls.entries.lookup w' fd (to_bytes 4 ref) ≡ calls.entries.lookup w fd (to_bytes 4 ref)
  lookup-other w w' ref updated differ =
      let kept =
        laws.update_find w w' fd (to_bytes 4 m.member_ref) bytes exist fd (to_bytes 4 ref)
          updated in
      laws.lookup_find w' fd (to_bytes 4 ref)
      ∙ ap found_or_enoent (kept ∙ rw (nat_refl fd, differ) refl)
      ∙ sym (laws.lookup_find w fd (to_bytes 4 ref))

  -- Let the map of members, which is no array and no trie, be open, with references as keys and with
  -- room for the action of a member in its values, let the selector have no cache, and let there be
  -- an entry for the member. If the number of its action is less than 2 ^ 32, updating the member
  -- succeeds; then reading its action gives that number, and all parameters as a single one, and
  -- reading the action of a member with another reference, both less than 2 ^ 32, gives the same as
  -- before.
  pub get_member_action-update_member :
      (s : Proc W) (old : Bytes) (o : MemberContext)
      → m.action.action_id < 2 ^ 32
      → m.member_ref < 2 ^ 32
      → o.member_ref < 2 ^ 32
      → m.member_ref ≢ o.member_ref
      → contents s.world fd (to_bytes 4 m.member_ref) ≡ some old
      → (s' : Proc W) × (update_member linked (some ctx) (some m) s ≡ (ok tt, s'))
        × (get_member_action linked ctx m s'.world
            ≡ ok
                (record { action_id = m.action.action_id; params = blob (concat m.action.params) }))
        × (get_member_action linked ctx o s'.world ≡ get_member_action linked ctx o s.world)
  get_member_action-update_member s old o lt lt_m lt_o differ there =
      let (w, updated) =
        laws.update_present s.world fd (to_bytes 4 m.member_ref) bytes old exist there
          exist-noexist in
      let read : Result Bytes → Result Action = λ r. action_read (
        parse_table_value (written_table ctx m.action fd room)
          (entry_at o.member_ref none).match_keys r) in
      (
        record s { world = w },
        update-run s w updated,
        read-found w lt (
            found (written_table ctx m.action fd room) (entry_at m.member_ref (some m.action))
              m.action fd (fitting ctx m.action fd room m.member_ref) calls fuel (run_in s.world)
              contents laws exist w updated),
        read_lem ctx m.action fd room calls fuel o.member_ref w
            ∙ ap read (
                lookup-other s.world w o.member_ref updated
                  (keys_differ m.member_ref o.member_ref lt_m lt_o differ))
            ∙ sym (read_lem ctx m.action fd room calls fuel o.member_ref s.world),
      )
