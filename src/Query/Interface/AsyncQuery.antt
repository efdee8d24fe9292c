-- ===== src/Query/Interface/AsyncQuery.antt =====
-- The class `if_async_query` of include/minicomps/if_async_query.h but for its calls.
use minicomps.Prelude.{
  ℕ, Bool, false, Option, none, some, if◌then◌else◌, Cmd, undefined, ◌>>◌, modify,
}
use minicomps.Component.{Component}
use minicomps.Callback.{Handler}
use minicomps.World.{World, IfQuery, async}
use minicomps.Query.Sync.{lock_component, unlock_component}
use minicomps.Query.Interface.Shared.{set_handler, unset, lock_weak, is_executor, prepend_own}

-- The constructor with a name.
unfoldable pub new : ℕ → IfQuery
new name = unset async name

-- `call_directly_`
abbrev pub may_call_directly : Component → Bool → Bool
may_call_directly handling same = if handling.allow_direct_call_async then same else false

-- The fields of a copy, once all pointers are known not to be null.
unfoldable pub proxy : World → ℕ → (sender handling executor : ℕ) → IfQuery
proxy w i sender handling executor = record (new (w.if_query i).name) {
  linked_query = some i;
  linked_handling_component = some handling;
  linked_executor = some executor;
  sending_lifetime = w.current_lifetime;
  sending_component = some sender;
  direct =
      may_call_directly (w.component handling)
        (is_executor (some executor) (w.component sender).default_executor);
}

unfoldable pub copy_for : World → ℕ → (sender handling executor : Option ℕ) → Option IfQuery
copy_for w i none handling executor = none
copy_for w i (some sender) none executor = none
copy_for w i (some sender) (some handling) none = none
copy_for w i (some sender) (some handling) (some executor) =
    some (proxy w i sender handling executor)

-- The copy constructor. `none` is `std::abort`, also in an `assert`: the query has no handler, no client
-- is at work in this thread, or the component or the executor is gone.
unfoldable pub copy : World → ℕ → Option IfQuery
copy w i = elim (w.if_query i).handler [
  | none ↦ none
  | some h ↦
      copy_for w i w.current_component (lock_weak w.alive (w.if_query i).handling_component)
        (lock_weak w.executor_alive (w.if_query i).handling_executor)
]

unfoldable pub publish : ℕ → Handler → ℕ → ℕ → World → World
publish i h component executor = set_handler i h component executor

-- `prepend_filter`. A copy passes the filter on to the query that it was made from, which is no copy
-- itself as copying a copy aborts; it holds the lock of the component meanwhile.
unfoldable pub prepend_filter : ℕ → ℕ → Cmd World (Unit {0})
prepend_filter f i w =
    if (w.if_query i).destroyed then undefined else elim (w.if_query i).linked_query [
      | none ↦ prepend_own f i w
      | some j ↦ elim (w.if_query i).linked_handling_component [
        | none ↦ undefined
        | some c ↦ (do modify (lock_component c); prepend_own f j; unlock_component c) w
      ]
    ]
