-- ===== src/Query/Interface/Shared.antt =====
-- What the three classes of interface queries share: weak pointers, and the query that is written.
use minicomps.Prelude.{
  ℕ, Bool, false, Option, none, some, if◌then◌else◌, Cmd, undefined, pure, ◌>>◌, modify, update,
  ◌==◌,
}
use minicomps.Callback.{Handler, wrapped}
use minicomps.World.{World, IfQuery, QueryKind}
use minicomps.Query.Sync.{lock_component, unlock_component}

unfoldable pub set_query : ℕ → IfQuery → World → World
set_query i q w = record w { if_query = update w.if_query i q }

-- A query with a name and the initial values of the other fields.
unfoldable pub unset : QueryKind → ℕ → IfQuery
unset kind name = record {
  kind = kind;
  name = name;
  handler = none;
  handling_component = none;
  handling_executor = none;
  linked_query = none;
  linked_handling_component = none;
  linked_executor = none;
  sending_lifetime = none;
  sending_component = none;
  direct = false;
  destroyed = false;
}

-- `weak_ptr::lock().get()`
abbrev pub lock_weak : (ℕ → Bool) → Option ℕ → Option ℕ
lock_weak alive none = none
lock_weak alive (some c) = if alive c then some c else none

-- `linked_executor_ == sending_component_->default_executor.get()`
abbrev pub is_executor : Option ℕ → ℕ → Bool
is_executor none x = false
is_executor (some y) x = y == x

-- The three assignments of `publish`.
unfoldable pub set_handler : ℕ → Handler → ℕ → ℕ → World → World
set_handler i h component executor w =
    set_query i
      (record (w.if_query i) {
        handler = some h;
        handling_component = some component;
        handling_executor = some executor;
      })
      w

-- The body of `prepend_filter` for a query that is no copy. `publish` sets the handler and the component
-- together, so a query that has a component has a handler.
unfoldable pub prepend_own : ℕ → ℕ → Cmd World (Unit {0})
prepend_own f i w = elim (lock_weak w.alive (w.if_query i).handling_component) [
  | none ↦ pure tt w
  | some c ↦ elim (w.if_query i).handler [
    | none ↦ undefined
    | some h ↦
        (do
          modify (lock_component c)
          modify (set_query i (record (w.if_query i) { handler = some (wrapped f h) }))
          unlock_component c)
          w
  ]
]
