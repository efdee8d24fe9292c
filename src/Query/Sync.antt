-- ===== src/Query/Sync.antt =====
-- include/minicomps/sync_query.h: calls that are answered before they return.
pub mod Bracket
pub mod Published
use minicomps.Prelude.{
  ℕ, ◌+◌, ◌-◌, Bool, Option, none, some, if◌then◌else◌, Cmd, ok, abort, undefined, pure, ◌>>=◌,
  ◌>>◌, modify, is_some, ◌==◌,
}
use minicomps.Component.{MessageType, request, response, locked_request, locked_response}
use minicomps.Callback.{Handler}
use minicomps.World.{
  World, UserCode, locked, unlocked, on_invoke, note, notify, set_component, handler_at, run_sync,
}
use minicomps.Query.Async.{lookup_mono}

-- `fallback_handler_` is empty until `set_fallback_handler`.
pub record SyncQuery : Type 0 where
  pub handler : ℕ
  pub owning_component : ℕ
  pub msg_info : ℕ
  pub fallback_handler : Option Handler

unfoldable pub set_fallback_handler : SyncQuery → Handler → SyncQuery
set_fallback_handler q h = record q { fallback_handler = some h }

-- The recursive mutex of a component, as the thread that holds it sees it.
unfoldable pub lock_component : ℕ → World → World
lock_component c w =
    note (locked c)
      (set_component c (record (w.component c) { lock_depth = (w.component c).lock_depth + 1 }) w)

-- Unlocking a mutex that is not held is undefined.
unfoldable pub unlock_component : ℕ → Cmd World (Unit {0})
unlock_component c w =
    if (w.component c).lock_depth == 0
    then undefined
    else ok tt (
        note (unlocked c) (
          set_component c (record (w.component c) { lock_depth = (w.component c).lock_depth - 1 })
            w))

-- `listener->on_invoke(...)`, if there is a listener.
unfoldable pub invoked : Option ℕ → ℕ → ℕ → ℕ → MessageType → Cmd World (Unit {0})
invoked listener sender receiver msg type =
    modify (notify listener (λ l. on_invoke l sender receiver msg type))

-- The two branches on `mutual_executor()`. The destructors run in the reverse order: the lock is
-- released before the listener hears of the response.
unfoldable pub call_plain :
    UserCode → Option ℕ → (sender receiver msg handler arguments : ℕ) → Cmd World ℕ
call_plain u listener sender receiver msg handler arguments = do
  invoked listener sender receiver msg request
  h ← handler_at handler
  answer ← run_sync u h arguments
  invoked listener receiver sender msg response
  pure answer

unfoldable pub call_locked :
    UserCode → Option ℕ → (sender receiver msg handler arguments : ℕ) → Cmd World ℕ
call_locked u listener sender receiver msg handler arguments = do
  invoked listener sender receiver msg locked_request
  modify (lock_component receiver)
  h ← handler_at handler
  answer ← run_sync u h arguments
  unlock_component receiver
  invoked listener receiver sender msg locked_response
  pure answer

unfoldable pub fall_back : UserCode → Option Handler → ℕ → Cmd World ℕ
fall_back u none arguments = λ _. abort
fall_back u (some h) arguments = run_sync u h arguments

-- From a resolved handler on. A null `receiver()` cannot be used.
unfoldable pub call_receiver : UserCode → SyncQuery → ℕ → ℕ → Cmd World ℕ
call_receiver u q handler arguments w = elim (w.mono_ref q.handler).receiver [
  | none ↦ undefined
  | some receiver ↦
      (let listener = (w.component receiver).listener in
        if (w.mono_ref q.handler).same_executor
        then call_plain u listener q.owning_component receiver q.msg_info handler arguments w
        else call_locked u listener q.owning_component receiver q.msg_info handler arguments w)
]

-- `operator()`
unfoldable pub invoke : UserCode → SyncQuery → ℕ → Cmd World ℕ
invoke u q arguments = lookup_mono q.handler >>= λ found. elim found [
  | none ↦ fall_back u q.fallback_handler arguments
  | some handler ↦ call_receiver u q handler arguments
]

unfoldable pub reachable : SyncQuery → Cmd World Bool
reachable q = do found ← lookup_mono q.handler; pure (is_some found)

-- `invoke` of mono_ref.h on a synchronous reference.
unfoldable pub invoke_ref : UserCode → ℕ → ℕ → Cmd World ℕ
invoke_ref u i arguments w = elim (w.mono_ref i).handler [
  | none ↦ abort
  | some p ↦ (do h ← handler_at p; run_sync u h arguments) w
]
