-- ===== src/Query/Interface/Reference.antt =====
-- include/minicomps/interface_ref.h and interface.h: a cached local copy of the interface that the
-- only receiver of its message implements.
pub mod Replaced
pub mod Proxies
pub mod Lookup
pub mod Called
use minicomps.Prelude.{
  ℕ, ◌+◌, Bool, not, ◌&&◌, Option, none, some, List, [], ◌∷◌, if◌then◌else◌, Cmd, ok, abort,
  undefined, pure, ◌>>=◌, ◌>>◌, modify, update, is_some, any, true, ◌==◌,
}
use minicomps.Broker
use minicomps.Component.{DependencyInfo, imports, interface, lookup_interface}
use minicomps.World.{World, IfQuery, InterfaceRef}
use minicomps.Ref.Mono.{expired}
use minicomps.Query.Interface.{copy_query}
use minicomps.Query.Interface.Shared.{set_query}

unfoldable pub new : ℕ → ℕ → Option ℕ → Bool → InterfaceRef
new msg owner lifetime cloneable = record {
  msg = msg;
  owning_component = owner;
  lifetime = lifetime;
  cloneable = cloneable;
  resolved_receivers = none;
  local_interface_proxy = none;
  receiver = none;
}

unfoldable pub set_reference : ℕ → InterfaceRef → World → World
set_reference i r w = record w { interface_ref = update w.interface_ref i r }

-- The copy constructor of an interface copies its queries in order.
unfoldable pub copy_queries : List ℕ → Cmd World (List ℕ)
copy_queries [] w = ok [] w
copy_queries (q ∷ qs) w =
    let rest = copy_queries qs in
    elim (copy_query w q) [
      | none ↦ abort
      | some q' ↦
          (rest >>= λ more. pure (w.next_if_query ∷ more))
            (set_query w.next_if_query q' (record w { next_if_query = w.next_if_query + 1 }))
    ]

unfoldable pub set_current : Option ℕ → Option ℕ → World → World
set_current c life w = record w { current_component = c; current_lifetime = life }

-- A proxy is destroyed, if there is one: its queries are.
unfoldable pub surviving : Option (List ℕ) → (ℕ → IfQuery) → ℕ → IfQuery
surviving none f q = f q
surviving (some qs) f q = if any (λ j. j == q) qs then record (f q) { destroyed = true } else f q

unfoldable pub destroy_proxy : Option (List ℕ) → World → World
destroy_proxy p w = record w { if_query = surviving p w.if_query }

-- The assignment of the new proxy destroys the one before.
unfoldable pub set_proxy : ℕ → List ℕ → World → World
set_proxy i qs w =
    destroy_proxy (w.interface_ref i).local_interface_proxy
      (set_reference i (record (w.interface_ref i) { local_interface_proxy = some qs }) w)

-- `set_current_component`, ..., `std::make_unique<InterfaceType>(*handler_interface)`, ...
unfoldable pub make_proxy : ℕ → ℕ → Cmd World (Option (List ℕ))
make_proxy i implementation w =
    (do
      modify (set_current (some (w.interface_ref i).owning_component) (w.interface_ref i).lifetime)
      qs ← copy_queries (w.interface implementation)
      modify (set_proxy i qs)
      modify (set_current none none)
      pure (some qs))
      w

-- From `receiver_ = (*receivers)[0].lock()` on.
unfoldable pub resolve_receiver : ℕ → ℕ → Cmd World (Option (List ℕ))
resolve_receiver i c w =
    if w.alive c
    then elim (lookup_interface (w.component c) (w.interface_ref i).msg) [
      | none ↦ ok none (set_reference i (record (w.interface_ref i) { receiver = some c }) w)
      | some implementation ↦
          make_proxy i implementation
            (set_reference i (record (w.interface_ref i) { receiver = some c }) w)
    ]
    else ok none (set_reference i (record (w.interface_ref i) { receiver = none }) w)

unfoldable pub resolve : ℕ → Option (List ℕ) → Cmd World (Option (List ℕ))
resolve i none = pure none
resolve i (some []) = pure none
resolve i (some (c ∷ [])) = resolve_receiver i c
resolve i (some (c ∷ d ∷ more)) = pure none

-- The answer is the queries of the proxy.
unfoldable pub lookup : ℕ → Cmd World (Option (List ℕ))
lookup i w =
    if is_some (w.interface_ref i).local_interface_proxy
      && not (expired w.broker (w.interface_ref i).resolved_receivers)
    then ok (w.interface_ref i).local_interface_proxy w
    else (let (h, b) = Broker.lookup w.broker (w.interface_ref i).msg in
        resolve i (Broker.lock b h) (
          set_reference i (record (w.interface_ref i) { resolved_receivers = some h })
            (record w { broker = b })))

unfoldable pub reset : ℕ → World → World
reset i w = destroy_proxy (w.interface_ref i).local_interface_proxy (
    set_reference i
      (record (w.interface_ref i) {
        resolved_receivers = none;
        local_interface_proxy = none;
        receiver = none;
      })
      w)

unfoldable pub force_resolve : ℕ → Cmd World (Unit {0})
force_resolve i = do found ← lookup i; pure tt

unfoldable pub create_dependency_info : InterfaceRef → DependencyInfo
create_dependency_info r = record {
  direction = imports;
  type = interface;
  msg_info = r.msg;
  resolved_targets = r.receiver ∷ [];
}

-- `interface`, whose only field is the address of a reference.
pub record InterfaceHandle : Type 0 where
  pub ref : ℕ

-- `operator->`: a null pointer that it returns cannot be used.
unfoldable pub arrow : InterfaceHandle → Cmd World (List ℕ)
arrow h = lookup h.ref >>= λ found. elim found [ none ↦ λ w. undefined | some qs ↦ pure qs ]
