-- ===== src/Selector/Context.antt =====
-- lib/nikss_action_selector.c: the context of a selector, its initial value, opening and closing its
-- maps, and the setters and getters of members and groups.
use Prim.Native.String.{String, ◌++◌}
use nikss.Base.{ℕ, Bool, true, false, Option, none, some, [], ◌==◌, if◌then◌else◌}
use nikss.Bpf.Types.{Result, ok, err, hangs, MapDescriptor, closed_descriptor, einval, enoent}
use nikss.Bpf.Exec.{Proc, close_fds}
use nikss.Bpf.Open.{open_bpf_map}
use nikss.Selector.Types.{
  SelectorCalls, SelectorContext, MemberContext, GroupContext, Action, invalid_reference,
}

abbrev pub empty_action : Action
empty_action = record { action_id = 0; params = [] }

-- an action whose parameters are freed, or moved elsewhere
abbrev pub emptied : Action → Action
emptied a = record a { params = [] }

abbrev pub member_init : MemberContext
member_init = record { member_ref = invalid_reference; action = empty_action }

abbrev pub group_init : GroupContext
group_init = record { group_ref = invalid_reference }

abbrev pub ctx_init : SelectorContext
ctx_init = record {
  map_of_groups = closed_descriptor;
  group = closed_descriptor;
  map_of_members = closed_descriptor;
  empty_group_action = closed_descriptor;
  cache = closed_descriptor;
  current_group = group_init;
  current_group_id = invalid_reference;
  current_member = member_init;
  current_member_id = invalid_reference;
}

abbrev pub closed : MapDescriptor → MapDescriptor
closed md = record md { fd = none }

-- Closes the five maps, and clears the member that the context owns.
unfoldable pub ctx_free : {W : Type 0} → SelectorContext → Proc W → SelectorContext × Proc W
ctx_free ctx s = (
  record ctx {
    group = closed ctx.group;
    map_of_groups = closed ctx.map_of_groups;
    map_of_members = closed ctx.map_of_members;
    empty_group_action = closed ctx.empty_group_action;
    cache = closed ctx.cache;
    current_member = record ctx.current_member { action = emptied ctx.current_member.action };
  },
  close_fds ctx.cache.fd (
      close_fds ctx.empty_group_action.fd (
        close_fds ctx.map_of_members.fd
          (close_fds ctx.map_of_groups.fd (close_fds ctx.group.fd s)))),
)

abbrev pub has_group_capability : Option SelectorContext → Bool
has_group_capability none = false
has_group_capability (some ctx) = elim ctx.map_of_groups.fd [ none ↦ false | some fd ↦ true ]

-- The action is moved: the second one is what its owner is left with.
abbrev pub member_action :
    Option MemberContext → Option Action → Result (Unit {0}) × Option MemberContext × Option Action
member_action (some m) (some a) = (ok tt, some (record m { action = a }), some (emptied a))
member_action m a = (err einval, m, a)

abbrev pub get_member_reference : Option MemberContext → ℕ
get_member_reference none = invalid_reference
get_member_reference (some m) = m.member_ref

abbrev pub set_member_reference : Option MemberContext → ℕ → Option MemberContext
set_member_reference none ref = none
set_member_reference (some m) ref = some (record m { member_ref = ref })

abbrev pub get_group_reference : Option GroupContext → ℕ
get_group_reference none = invalid_reference
get_group_reference (some g) = g.group_ref

abbrev pub set_group_reference : Option GroupContext → ℕ → Option GroupContext
set_group_reference none ref = none
set_group_reference (some g) ref = some (record g { group_ref = ref })

module _ {W : Type 0} (calls : SelectorCalls W) (pipeline_id : ℕ) where
  abbrev pub Opened : Type 0
  Opened = Result (Unit {0}) × SelectorContext × Proc W

  -- Opens one map of the context after the others.
  abbrev then_open :
      String
      → (SelectorContext → MapDescriptor)
      → (SelectorContext → MapDescriptor → SelectorContext)
      → Opened
      → Opened
  then_open name get set (ok u, ctx, s) =
      let (r, md, s') = open_bpf_map calls.files pipeline_id name (get ctx) s in (r, set ctx md, s')
  then_open name get set (err e, ctx, s) = (err e, ctx, s)
  then_open name get set (hangs, ctx, s) = (hangs, ctx, s)

  abbrev then_close_group : Opened → Opened
  then_close_group (ok u, ctx, s) =
      (ok tt, record ctx { group = closed ctx.group }, close_fds ctx.group.fd s)
  then_close_group (err e, ctx, s) = (err e, ctx, s)
  then_close_group (hangs, ctx, s) = (hangs, ctx, s)

  -- There need not be a cache.
  abbrev optional : Opened → Opened → Opened
  optional (ok u, ctx, s) (err e, ctx', s') = (ok tt, ctx', s')
  optional (ok u, ctx, s) opened = opened
  optional failed opened = failed

  abbrev groups_opened : String → Opened → Opened
  groups_opened name opened =
      then_open (name ++ "_defaultActionGroup") (λ c. c.empty_group_action)
        (λ c md. record c { empty_group_action = md })
        (then_open (name ++ "_actions") (λ c. c.map_of_members)
          (λ c md. record c { map_of_members = md })
          (then_open (name ++ "_groups") (λ c. c.map_of_groups)
            (λ c md. record c { map_of_groups = md })
            (then_close_group (
              then_open (name ++ "_groups_inner") (λ c. c.group) (λ c md. record c { group = md })
                opened))))

  -- The names are taken to fit into their buffer.
  unfoldable pub do_open_action_selector : SelectorContext → String → Proc W → Opened
  do_open_action_selector ctx name s =
      let opened = groups_opened name (ok tt, ctx, s) in
      optional opened
        (then_open (name ++ "_cache") (λ c. c.cache) (λ c md. record c { cache = md }) opened)

  unfoldable pub do_open_action_profile : SelectorContext → String → Proc W → Opened
  do_open_action_profile ctx name s =
      then_open name (λ c. c.map_of_members) (λ c md. record c { map_of_members = md })
        (ok tt, ctx, s)

  abbrev or_profile : String → Opened → Opened
  or_profile name (ok u, ctx, s) = (ok u, ctx, s)
  or_profile name (hangs, ctx, s) = (hangs, ctx, s)
  or_profile name (err e, ctx, s) =
      let profile = do_open_action_profile ctx name s in
      if e == enoent then profile else (err e, ctx, s)

  -- The context and the name; `none` is a null pointer.
  unfoldable pub ctx_name :
      Option SelectorContext
      → Option String
      → Proc W
      → Result (Unit {0}) × Option SelectorContext × Proc W
  unfolding do_open_action_profile do_open_action_selector
  ctx_name (some ctx) (some name) s =
      let (r, ctx', s') = or_profile name (do_open_action_selector ctx name s) in (r, some ctx', s')
  ctx_name ctx name s = (err einval, ctx, s)
