-- ===== src/Query/Interface/VolatileQuery.antt =====
-- The class `if_volatile_sync_query` of include/minicomps/if_volatile_sync_query.h but for its calls.
use minicomps.Prelude.{if◌then◌else◌, undefined, ℕ, Option, none, some, Cmd}
use minicomps.Callback.{Handler}
use minicomps.World.{World, IfQuery, volatile}
use minicomps.Query.Interface.Shared.{set_handler, unset, lock_weak, is_executor, prepend_own}

-- The constructor with a name.
unfoldable pub new : ℕ → IfQuery
new name = unset volatile name

-- The fields of a copy, once the sender and the component that handles the query are known. The
-- executor may be gone; then `mutual_executor_` is false.
unfoldable pub proxy : World → ℕ → (sender handling : ℕ) → Option ℕ → IfQuery
proxy w i sender handling executor = record (new (w.if_query i).name) {
  linked_query = some i;
  linked_handling_component = some handling;
  linked_executor = executor;
  sending_component = some sender;
  direct = is_executor executor (w.component sender).default_executor;
}

unfoldable pub copy_for : World → ℕ → (sender handling executor : Option ℕ) → Option IfQuery
copy_for w i none handling executor = none
copy_for w i (some sender) none executor = none
copy_for w i (some sender) (some handling) executor = some (proxy w i sender handling executor)

-- The copy constructor. `none` is `std::abort`: the query has no handler, no client is at work in this
-- thread, or the component is gone.
unfoldable pub copy : World → ℕ → Option IfQuery
copy w i = elim (w.if_query i).handler [
  | none ↦ none
  | some h ↦
      copy_for w i w.current_component (lock_weak w.alive (w.if_query i).handling_component)
        (lock_weak w.executor_alive (w.if_query i).handling_executor)
]

unfoldable pub publish : ℕ → Handler → ℕ → ℕ → World → World
publish i h component executor = set_handler i h component executor

-- `prepend_filter`. A copy passes the filter on to the query that it was made from.
unfoldable pub prepend_filter : ℕ → ℕ → Cmd World (Unit {0})
prepend_filter f i w =
    if (w.if_query i).destroyed
    then undefined
    else elim (w.if_query i).linked_query [ none ↦ prepend_own f i w | some j ↦ prepend_own f j w ]
