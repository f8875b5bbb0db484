-- ===== src/Pre/Types.antt =====
-- The data of lib/nikss_pre.c and include/nikss/nikss_pre.h, and the kernel as these files see it:
-- an outer map from a session or group to its inner map, and inner maps that each hold a linked list.
use nikss.Base.{ℕ, ◌≡◌, ◌↔◌, Bool, true, ◌&&◌, Eq, ◌==◌, arith}
use nikss.Bpf.Types.{FileCalls, MapCalls}

-- `struct list_key_t`, `elem_t`
pub record ElemT : Type 0 where
  pub port : ℕ
  pub instance : ℕ

-- `struct nikss_clone_session_entry`
pub record CloneSessionEntry : Type 0 where
  pub egress_port : ℕ
  pub instance : ℕ
  pub class_of_service : ℕ
  pub truncate : ℕ
  pub packet_length_bytes : ℕ

-- `struct element`
pub record Element : Type 0 where
  pub entry : CloneSessionEntry
  pub next_id : ElemT

-- sizeof(elem_t) and sizeof(struct element), with their padding
abbrev pub elem_t_size : ℕ
elem_t_size = 8

abbrev pub element_size : ℕ
element_size = 20

abbrev pub elem_beq : ElemT → ElemT → Bool
elem_beq a b = a.port == b.port && a.instance == b.instance

pub elem_beq_iff : (a b : ElemT) → (elem_beq a b ≡ true) ↔ (a ≡ b)
elem_beq_iff a b = ground arith

instance abbrev pub elem_eq : Eq ElemT
elem_eq = record { beq = elem_beq; beq_iff = elem_beq_iff }

-- `{ 0 }`
abbrev pub zero_elem : ElemT
zero_elem = record { port = 0; instance = 0 }

abbrev pub zero_entry : CloneSessionEntry
zero_entry = record {
  egress_port = 0;
  instance = 0;
  class_of_service = 0;
  truncate = 0;
  packet_length_bytes = 0;
}

-- The calls that lib/nikss_pre.c makes.
pub record PreCalls (World : Type 0) : Type 0 where
  pub files : FileCalls World
  pub open files use *
  pub outer : MapCalls World ℕ ℕ
  pub inner : MapCalls World ElemT Element
