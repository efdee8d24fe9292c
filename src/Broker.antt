-- ===== src/Broker.antt =====
-- include/minicomps/broker.h and src/broker.cpp: which component listens to which message.
pub mod Table
pub mod Handles
pub mod Contract
use minicomps.Prelude.{
  ℕ, ◌+◌, Bool, true, false, not, ◌&&◌, Option, none, some, List, [], ◌∷◌, ◌++◌, ◌==◌,
  if◌then◌else◌, keep, Map, find, put, keys,
}

-- A `shared_ptr<message_receivers>`. `version` is the identity of the block that it owns.
pub record Receivers : Type 0 where
  pub version : ℕ
  pub items : List ℕ

pub record Broker : Type 0 where
  pub active_lookups : Map Receivers
  pub next_version : ℕ

-- A `weak_ptr<message_receivers>`: a block is made for one message and stored at that message only.
pub record Handle : Type 0 where
  pub msg : ℕ
  pub version : ℕ

abbrev pub empty : Broker
empty = record { active_lookups = []; next_version = 0 }

-- `active_lookups_[msg_id] = make_shared(...)`
unfoldable pub store : Broker → ℕ → List ℕ → Broker
store b msg items = record {
  active_lookups = put msg (record { version = b.next_version; items = items }) b.active_lookups;
  next_version = b.next_version + 1;
}

unfoldable pub associate : Broker → ℕ → ℕ → Broker
associate b msg comp = elim (find msg b.active_lookups) [
  | none ↦ store b msg (comp ∷ [])
  | some old ↦ store b msg (old.items ++ comp ∷ [])
]

-- `alive` says which weak pointers can be locked. `none` is `std::abort`.
unfoldable pub disassociate : (ℕ → Bool) → Broker → ℕ → ℕ → Option Broker
disassociate alive b msg comp = elim (find msg b.active_lookups) [
  | none ↦ none
  | some old ↦ some (store b msg (keep (λ r. alive r && not (r == comp)) old.items))
]

unfoldable pub invalidate : Broker → ℕ → Broker
invalidate b msg = elim (find msg b.active_lookups) [ none ↦ b | some old ↦ store b msg old.items ]

abbrev pub and_then : Option Broker → (Broker → Option Broker) → Option Broker
and_then none f = none
and_then (some b) f = f b

-- The loop over the map of `disassociate_everything`; its body adds no key.
unfoldable pub disassociate_all : (ℕ → Bool) → ℕ → List ℕ → Broker → Option Broker
disassociate_all alive comp [] b = some b
disassociate_all alive comp (msg ∷ msgs) b =
    and_then (disassociate alive b msg comp) (disassociate_all alive comp msgs)

unfoldable pub disassociate_everything : (ℕ → Bool) → Broker → ℕ → Option Broker
disassociate_everything alive b comp = disassociate_all alive comp (keys b.active_lookups) b

unfoldable pub lookup : Broker → ℕ → Handle × Broker
lookup b msg = elim (find msg b.active_lookups) [
  | none ↦ (record { msg = msg; version = b.next_version }, store b msg [])
  | some old ↦ (record { msg = msg; version = old.version }, b)
]

-- `weak_ptr::expired` and `weak_ptr::lock`: the broker alone owns the block.
unfoldable pub lock : Broker → Handle → Option (List ℕ)
lock b h = elim (find h.msg b.active_lookups) [
  | none ↦ none
  | some r ↦ if r.version == h.version then some r.items else none
]

unfoldable pub expired : Broker → Handle → Bool
expired b h = elim (lock b h) [ none ↦ true | some items ↦ false ]
