-- ===== src/Ref/Poly.antt =====
-- include/minicomps/poly_ref.h: a cached reference to all handlers of an event.
pub mod Cache
use minicomps.Prelude.{
  ℕ, Bool, true, false, not, ◌&&◌, Option, none, some, List, [], ◌∷◌, map, ◌==◌, if◌then◌else◌, ◌+◌,
}
use minicomps.Broker
use minicomps.Broker.{Broker, Handle}
use minicomps.Component.{DependencyInfo, exports, async_poly, lookup_async_handler}
use minicomps.Ref.Mono.{Components, expired}

-- `receiver_handler`
pub record ReceiverHandler : Type 0 where
  pub receiving_component : ℕ
  pub handler : ℕ
  pub same_executor : Bool

-- `clears` counts the calls of `clear()` on `receiver_handlers_`: each invalidates its iterators.
pub record PolyRef : Type 0 where
  pub msg : ℕ
  pub component : ℕ
  pub receivers : Option Handle
  pub receiver_handlers : List ReceiverHandler
  pub clears : ℕ

unfoldable pub new : ℕ → ℕ → PolyRef
new msg component = record {
  msg = msg;
  component = component;
  receivers = none;
  receiver_handlers = [];
  clears = 0;
}

abbrev pub is_empty : List ReceiverHandler → Bool
is_empty [] = true
is_empty (x ∷ xs) = false

abbrev pub receiver_handler : Components → PolyRef → ℕ → ℕ → ReceiverHandler
receiver_handler env r c p = record {
  receiving_component = c;
  handler = p;
  same_executor =
      (env.component c).default_executor == (env.component r.component).default_executor;
}

-- The loop over the receivers.
unfoldable pub collect : Components → PolyRef → List ℕ → List ReceiverHandler
collect env r [] = []
collect env r (c ∷ cs) =
    let rest = collect env r cs in
    if env.alive c
    then elim (lookup_async_handler (env.component c) r.msg) [
      | none ↦ rest
      | some p ↦ receiver_handler env r c p ∷ rest
    ]
    else rest

-- The receivers that it could lock; a weak pointer that cannot be locked gives no receiver.
abbrev pub locked : Option (List ℕ) → List ℕ
locked none = []
locked (some xs) = xs

-- The reference and the broker after it; the answer is `receiver_handlers`.
unfoldable pub lookup : Components → Broker → PolyRef → PolyRef × Broker
lookup env b r =
    if not (is_empty r.receiver_handlers) && not (expired b r.receivers)
    then (r, b)
    else (let (h, b1) = Broker.lookup b r.msg in
        (
          record r {
            receivers = some h;
            receiver_handlers = collect env r (locked (Broker.lock b1 h));
            clears = r.clears + 1;
          },
          b1,
        ))

unfoldable pub reset : PolyRef → PolyRef
reset r = record r { receivers = none; receiver_handlers = []; clears = r.clears + 1 }

unfoldable pub force_resolve : Components → Broker → PolyRef → PolyRef × Broker
force_resolve env b r = lookup env b r

unfoldable pub create_dependency_info : PolyRef → DependencyInfo
create_dependency_info r = record {
  direction = exports;
  type = async_poly;
  msg_info = r.msg;
  resolved_targets = map (λ h. some h.receiving_component) r.receiver_handlers;
}
