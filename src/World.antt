-- ===== src/World.antt =====
-- The state that the queries and events of include/minicomps share, and the code of the program that
-- they call.
pub mod Effects
use minicomps.Prelude.{
  ℕ, Bool, Option, none, some, List, [], ◌∷◌, ◌++◌, if◌then◌else◌, Cmd, ok, undefined, pure, ◌>>=◌,
  update,
}
use minicomps.Broker.{Broker, Handle}
use minicomps.Component.{Component, MessageType}
use minicomps.Executor.{Executor, enqueue_work}
use minicomps.Callback.{CallbackResult, Handler, code, filtered, wrapped, Task}
use minicomps.Lifetime
use minicomps.Lifetime.{Lifetimes}
use minicomps.Ref.Mono.{MonoRef, Components}
use minicomps.Ref.Poly.{PolyRef}

-- What can be observed of a run: the calls of a `component_listener`, and locks of components.
pub data Entry : Type 0 where
  on_enqueue on_invoke : (listener sender receiver msg : ℕ) → MessageType → Entry
  locked unlocked : (component : ℕ) → Entry

-- `if_async_query`, `if_sync_query` or `if_volatile_sync_query`
pub data QueryKind : Type 0 where
  async sync volatile : QueryKind

-- The fields of an interface query. `direct` is `call_directly_` or `mutual_executor_`; `destroyed` says
-- that the object is gone.
pub record IfQuery : Type 0 where
  pub kind : QueryKind
  pub name : ℕ
  pub handler : Option Handler
  pub handling_component : Option ℕ
  pub handling_executor : Option ℕ
  pub linked_query : Option ℕ
  pub linked_handling_component : Option ℕ
  pub linked_executor : Option ℕ
  pub sending_lifetime : Option ℕ
  pub sending_component : Option ℕ
  pub direct : Bool
  pub destroyed : Bool

-- `interface_ref_base`. The proxy is the list of its queries, in the order of their declaration;
-- `cloneable` says whether the function `clone` has been set.
pub record InterfaceRef : Type 0 where
  pub msg : ℕ
  pub owning_component : ℕ
  pub lifetime : Option ℕ
  pub cloneable : Bool
  pub resolved_receivers : Option Handle
  pub local_interface_proxy : Option (List ℕ)
  pub receiver : Option ℕ

-- Objects are named by ids. `alive` and `executor_alive` say which components
-- and executors still have an owner. `handler` is the handler object at an address, `interface` the queries of an
-- interface object. `current_component` and `current_lifetime` are those of the running thread.
pub record World : Type 0 where
  pub broker : Broker
  pub alive : ℕ → Bool
  pub component : ℕ → Component
  pub executor : ℕ → Executor Task
  pub executor_alive : ℕ → Bool
  pub lifetimes : Lifetimes
  pub handler : ℕ → Option Handler
  pub next_handler : ℕ
  pub mono_ref : ℕ → MonoRef
  pub next_mono_ref : ℕ
  pub poly_ref : ℕ → PolyRef
  pub next_poly_ref : ℕ
  pub interface_ref : ℕ → InterfaceRef
  pub next_interface_ref : ℕ
  pub if_query : ℕ → IfQuery
  pub next_if_query : ℕ
  pub interface : ℕ → List ℕ
  pub current_component : Option ℕ
  pub current_lifetime : Option ℕ
  pub log : List Entry

-- What the program provides: its handlers, filters and callbacks, by their ids, and the result type
-- of minicoros. A filter reports whether to proceed and what it leaves of its arguments, which are
-- moved into it. `succeed` runs the callback of `with_successful_callback` on a value and the outer
-- result, `fail` passes a failure to the outer result. `moved_from` is what is left of an event once its
-- content has been moved elsewhere.
pub record UserCode : Type 0 where
  pub async_handler : ℕ → ℕ → CallbackResult → Cmd World (Unit {0})
  pub sync_handler : ℕ → ℕ → Cmd World ℕ
  pub event_handler : ℕ → ℕ → Cmd World (Unit {0})
  pub filter : ℕ → ℕ → CallbackResult → Cmd World (Bool × ℕ × CallbackResult)
  pub if_async_filter : ℕ → ℕ → CallbackResult → Handler → Cmd World (Unit {0})
  pub if_sync_filter : ℕ → ℕ → Handler → Cmd World ℕ
  pub callback : ℕ → ℕ → Cmd World (Unit {0})
  pub promise : ℕ → ℕ → Cmd World (Unit {0})
  pub succeed : (callback value outer : ℕ) → Cmd World (Unit {0})
  pub fail : (outer failure : ℕ) → Cmd World (Unit {0})
  pub work : ℕ → Cmd World (Unit {0})
  pub moved_from : ℕ → ℕ
  pub is_success : ℕ → Bool
  pub get_value : ℕ → ℕ
  pub get_failure : ℕ → ℕ

abbrev pub components : World → Components
components w = record { alive = w.alive; component = w.component }

-- The effects, each on one part of the state.
unfoldable pub note : Entry → World → World
note e w = record w { log = w.log ++ e ∷ [] }

-- `if (listener) listener->...`
unfoldable pub notify : Option ℕ → (ℕ → Entry) → World → World
notify none e w = w
notify (some l) e w = note (e l) w

unfoldable pub enqueue : ℕ → Task → World → World
enqueue x t w = record w { executor = update w.executor x (enqueue_work (w.executor x) t) }

unfoldable pub set_component : ℕ → Component → World → World
set_component c k w = record w { component = update w.component c k }

abbrev pub expired_lifetime : World → Option ℕ → Bool
expired_lifetime w t = Lifetime.expired w.lifetimes t

-- A handler object through its address; an address without an object is dangling.
unfoldable pub handler_at : ℕ → Cmd World Handler
handler_at p w = elim (w.handler p) [ none ↦ undefined | some h ↦ ok h w ]

module _ (u : UserCode) where
  -- The call of an asynchronous handler. A filter decides whether the handler that it was put on runs.
  unfoldable pub run_async : Handler → ℕ → CallbackResult → Cmd World (Unit {0})
  run_async (code k) args result = u.async_handler k args result
  run_async (filtered f at previous) args result =
      let proceed = λ (a : ℕ) (r : CallbackResult). run_async previous a r in
      u.filter f args result >>= λ (go, args', result').
      if go then proceed args' result' else pure tt
  run_async (wrapped f previous) args result = u.if_async_filter f args result previous

  -- The call of a synchronous handler; only asynchronous queries of messages take filters of a
  -- component, so no other case arises for a handler object of the right type.
  unfoldable pub run_sync : Handler → ℕ → Cmd World ℕ
  run_sync (code k) args = u.sync_handler k args
  run_sync (filtered f at previous) args = λ _. undefined
  run_sync (wrapped f previous) args = u.if_sync_filter f args previous

  -- The call of an event handler, which takes no filter.
  unfoldable pub run_event : Handler → ℕ → Cmd World (Unit {0})
  run_event (code k) event = u.event_handler k event
  run_event (filtered f at previous) event = λ _. undefined
  run_event (wrapped f previous) event = λ _. undefined
