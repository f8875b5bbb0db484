-- ===== src/Pre/Sim.antt =====
-- A kernel with one table of sessions and one of nodes, on which tests and examples run.
use Prim.Native.String.{String}
use text.Mathlib.Text.{◌==◌ as str_eq}
use nikss.Base.{ℕ, ◌+◌, refl, Option, List, [], ◌∷◌, if◌then◌else◌, ◌==◌, nat_eq, arith}
use nikss.Bpf.Types.{Result, ok, err, enoent, MapInfo, MapType, MapLaws}
use nikss.Bpf.Assoc.{find, assoc_calls, assoc_calls-laws, write}
use nikss.Bpf.Exec.{Proc}
use nikss.Pre.Types.{PreCalls, ElemT, Element, elem_eq, CloneSessionEntry, zero_elem, zero_entry}
use nikss.Pre.Entry.{key_of}
use nikss.Pre.Chain.{node, IsSession, next_of}
use nikss.Pre.Opening.{IsOpenable}
use nikss.Pre.CloneSession.{clone_session_table}

pub record SimWorld : Type 0 where
  pub links : List (ℕ × ℕ × ℕ)
  pub cells : List (ℕ × ElemT × Element)
  pub next_map : ℕ

abbrev outer_info : MapInfo
outer_info = record { type = MapType.array_of_maps; key_size = 4; value_size = 4; max_entries = 16 }

abbrev inner_info : MapInfo
inner_info = record { type = MapType.hash; key_size = 8; value_size = 20; max_entries = 8 }

-- the tables of clone sessions and their template are the maps 1 and 2
abbrev pin : String → Result ℕ
pin name =
    if str_eq name "clone_session_tbl"
    then ok 1
    else if str_eq name "clone_session_tbl_inner"
    then ok 2
    else err enoent

abbrev pub sim_calls : PreCalls SimWorld
sim_calls = record {
  files = record {
    obj_get = λ w p. pin p.name;
    obj_get_info = λ w m. if m == 1 then ok outer_info else ok inner_info;
    map_get_fd = λ w m. ok m;
    create_map = λ w i. ok (w.next_map, record w { next_map = w.next_map + 1 });
  };
  outer = assoc_calls 16 (λ w. w.links) (λ w t. record w { links = t });
  inner = assoc_calls 8 (λ w. w.cells) (λ w t. record w { cells = t });
}

abbrev pub sim_nodes : SimWorld → ℕ → ElemT → Option Element
sim_nodes w m k = find w.cells m k

pub sim_nodes-laws : MapLaws sim_calls.inner sim_nodes
sim_nodes-laws = assoc_calls-laws 8 (λ w. w.cells) (λ w t. record w { cells = t }) (λ w t. refl)

abbrev pub booted : Proc SimWorld
booted = record { world = record { links = []; cells = []; next_map = 10 }; open_fds = 3 }

-- the cells of a list behind a node
abbrev cells_of : ElemT → CloneSessionEntry → List CloneSessionEntry → List (ℕ × ElemT × Element)
cells_of k e [] = (10, k, node e zero_elem) ∷ []
cells_of k e (x ∷ xs) = (10, k, node e (key_of x)) ∷ cells_of (key_of x) x xs

-- the clone session 5, whose map is 10, with a list
abbrev pub holding : List CloneSessionEntry → Proc SimWorld
holding xs = record {
  world = record {
    links = (1, 5, 10) ∷ [];
    cells = cells_of zero_elem zero_entry xs;
    next_map = 11;
  };
  open_fds = 3;
}

pub holding-IsOpenable :
    (xs : List CloneSessionEntry)
    → IsOpenable sim_calls (holding xs).world 1 clone_session_table 5 10
holding-IsOpenable xs = record {
  outer = 1;
  outer_info = outer_info;
  id = 10;
  inner_info = inner_info;
  pinned = refl;
  described = refl;
  outer_key = refl;
  outer_value = refl;
  linked = refl;
  opened = refl;
  inner_described = refl;
  inner_key = refl;
  inner_value = refl;
}

abbrev pub member : ℕ → ℕ → CloneSessionEntry
member p i = record zero_entry { egress_port = p; instance = i }

abbrev pub two : List CloneSessionEntry
two = member 7 1 ∷ member 9 1 ∷ []

abbrev pub three : List CloneSessionEntry
three = member 7 1 ∷ member 8 0 ∷ member 9 1 ∷ []

pub two-IsSession : IsSession (sim_nodes (holding two).world 10) two
two-IsSession = record {
  chain = (refl, (refl, refl));
  distinct = (refl, refl, (refl, refl, tt));
  complete = λ k nz m. ground arith;
}

pub three-IsSession : IsSession (sim_nodes (holding three).world 10) three
three-IsSession = record {
  chain = (refl, (refl, (refl, refl)));
  distinct = (refl, refl, (refl, refl, (refl, refl, tt)));
  complete = λ k nz m. ground arith;
}

-- the world in which a node for `x` has been added
abbrev pub stored : SimWorld → CloneSessionEntry → List CloneSessionEntry → SimWorld
stored w x xs = record w { cells = write w.cells 10 (key_of x) (node x (next_of xs)) }
