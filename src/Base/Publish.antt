-- ===== src/Base/Publish.antt =====
-- The functions of component_base.h that publish handlers. Each has an overload for a member function
-- that wraps it into a callable: both are a handler object of the program here.
pub mod Reached
pub mod Filter
pub mod Offers
pub mod Ownership
pub mod Safe
pub mod Known
pub mod History
use minicomps.Prelude.{
  ℕ, ◌+◌, Option, none, some, List, [], ◌∷◌, ◌++◌, Cmd, ok, abort, undefined, ◌>>◌, modify, update,
  find, put, keys,
}
use minicomps.Broker.{Broker, associate, invalidate}
use minicomps.Component.{
  Component, DependencyInfo, Direction, exports, imports, DependencyType, sync_mono, async_mono,
  async_poly, interface,
}
use minicomps.Callback.{Handler, code, filtered, wrapped}
use minicomps.World.{World, set_component}
use minicomps.Query.Interface.AsyncQuery
use minicomps.Query.Interface.SyncQuery
use minicomps.Query.Interface.VolatileQuery

-- What is left of the handler objects when one is destroyed: the lambda of a filter owns the object
-- that it was put on.
unfoldable pub drop_contents : Handler → (ℕ → Option Handler) → ℕ → Option Handler
drop_contents (code k) mem = mem
drop_contents (filtered f at previous) mem = update (drop_contents previous mem) at none
drop_contents (wrapped f previous) mem = mem

unfoldable pub drop_handler : Option ℕ → World → World
drop_handler none w = w
drop_handler (some p) w = elim (w.handler p) [
  | none ↦ w
  | some h ↦ record w { handler = update (drop_contents h w.handler) p none }
]

-- `std::make_shared<wrapper_type>(...)`
unfoldable pub new_handler : Handler → World → World
new_handler h w = record w {
  handler = update w.handler w.next_handler (some h);
  next_handler = w.next_handler + 1;
}

-- `broker_.associate(msg_id, shared_from_this())`
unfoldable pub associate_with : ℕ → ℕ → World → World
associate_with c msg w = record w { broker = associate w.broker msg c }

abbrev pub published_as : Direction → DependencyType → ℕ → DependencyInfo
published_as direction type msg = record {
  direction = direction;
  type = type;
  msg_info = msg;
  resolved_targets = [];
}

unfoldable pub add_dependency_info : ℕ → DependencyInfo → World → World
add_dependency_info c info w =
    set_component c
      (record (w.component c) {
        published_dependencies = (w.component c).published_dependencies ++ info ∷ [];
      })
      w

-- `sync_handlers_[msg_id] = ...`: the object that was there before loses its owner.
unfoldable pub set_sync_handler : ℕ → ℕ → Handler → World → World
set_sync_handler c msg h w =
    let p = w.next_handler in
    let w1 = new_handler h w in
    let w2 = drop_handler (find msg (w.component c).sync_handlers) w1 in
    set_component c
      (record (w.component c) { sync_handlers = put msg p (w.component c).sync_handlers }) w2

-- `async_handlers_[msg_id] = ...`, where `old` is the object that loses its owner, if any.
unfoldable pub set_async_handler : ℕ → ℕ → Handler → Option ℕ → World → World
set_async_handler c msg h old w =
    let p = w.next_handler in
    let w1 = new_handler h w in
    let w2 = drop_handler old w1 in
    set_component c
      (record (w.component c) { async_handlers = put msg p (w.component c).async_handlers }) w2

unfoldable pub publish_sync_query : (c msg handler : ℕ) → World → World
publish_sync_query c msg k w =
    add_dependency_info c (published_as exports sync_mono msg)
      (set_sync_handler c msg (code k) (associate_with c msg w))

unfoldable pub set_override : ℕ → ℕ → Option ℕ → World → World
set_override c msg executor w =
    set_component c
      (record (w.component c) {
        async_executor_overrides = put msg executor (w.component c).async_executor_overrides;
      })
      w

unfoldable pub publish_async_query : (c msg handler : ℕ) → Option ℕ → World → World
publish_async_query c msg k executor_override w =
    add_dependency_info c (published_as exports async_mono msg) (
      set_override c msg executor_override (
        set_async_handler c msg (code k) (find msg (w.component c).async_handlers)
          (associate_with c msg w)))

unfoldable pub subscribe_event : (c msg handler : ℕ) → World → World
subscribe_event c msg k w = add_dependency_info c (published_as imports async_poly msg) (
    set_async_handler c msg (code k) (find msg (w.component c).async_handlers)
      (associate_with c msg w))

-- The filter's object takes over the object that it is put on, at its address.
unfoldable pub filter_handler : (c msg filter at : ℕ) → Cmd World (Unit {0})
filter_handler c msg f p w = elim (w.handler p) [
  | none ↦ undefined
  | some previous ↦
      (let w1 = set_async_handler c msg (filtered f p previous) none w in
        ok tt (record w1 { broker = invalidate w1.broker msg }))
]

unfoldable pub prepend_async_query_filter : (c msg filter : ℕ) → Cmd World (Unit {0})
prepend_async_query_filter c msg f w = elim (find msg (w.component c).async_handlers) [
  | none ↦ abort
  | some p ↦ filter_handler c msg f p w
]

unfoldable pub publish_interface : (c msg implementation : ℕ) → World → World
publish_interface c msg i w =
    let w1 = associate_with c msg w in
    let k = w1.component c in
    set_component c
      (record k {
        interfaces = put msg i k.interfaces;
        published_dependencies =
            k.published_dependencies ++ published_as exports interface msg ∷ [];
        post_publish_checks = k.post_publish_checks ++ i ∷ [];
      })
      w1

-- `executor_override ? executor_override : default_executor`
abbrev pub chosen_executor : Component → Option ℕ → ℕ
chosen_executor k none = k.default_executor
chosen_executor k (some x) = x

-- The overloads for the queries of an interface.
unfoldable pub publish_if_async_query : (c query handler : ℕ) → Option ℕ → World → World
publish_if_async_query c q k executor_override w =
    AsyncQuery.publish q (code k) c (chosen_executor (w.component c) executor_override) w

unfoldable pub publish_if_sync_query : (c query handler : ℕ) → World → World
publish_if_sync_query c q k w = SyncQuery.publish q (code k) c (w.component c).default_executor w

unfoldable pub publish_volatile_sync_query : (c query handler : ℕ) → World → World
publish_volatile_sync_query c q k w =
    VolatileQuery.publish q (code k) c (w.component c).default_executor w

unfoldable pub invalidate_all : List ℕ → Broker → Broker
invalidate_all [] b = b
invalidate_all (msg ∷ msgs) b = invalidate_all msgs (invalidate b msg)

-- The filter of an asynchronous interface query; all interfaces of the component are invalidated.
unfoldable pub prepend_if_query_filter : (c query filter : ℕ) → Cmd World (Unit {0})
prepend_if_query_filter c q f = do
  AsyncQuery.prepend_filter f q
  modify (λ w. record w { broker = invalidate_all (keys (w.component c).interfaces) w.broker })
