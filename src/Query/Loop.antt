-- ===== src/Query/Loop.antt =====
-- `execute` of include/minicomps/executor.h: one round of an executor over its tasks.
pub mod Rounds
pub mod Exchange
pub mod RoundTrip
pub mod Published
pub mod Replaced
use minicomps.Prelude.{ℕ, List, [], ◌∷◌, Cmd, pure, ◌>>=◌, ◌>>◌, modify, update}
use minicomps.Executor.{Executor, swap_buffers, clear_back_buffer}
use minicomps.Callback.{Task}
use minicomps.World.{World, UserCode}
use minicomps.Query.Result.{run_response}
use minicomps.Query.Async.{run_request}
use minicomps.Query.Event.{run_event_task}
use minicomps.Query.Interface.Call.{run_if_request}

-- `task::execute`
unfoldable pub run_task : UserCode → Task → Cmd World (Unit {0})
run_task u (Task.request handler msg d) = run_request u handler msg d
run_task u (Task.if_request query msg d) = run_if_request u query msg d
run_task u (Task.response d) = run_response u d
run_task u (Task.event handler event) = run_event_task u handler event
run_task u (Task.work k) = u.work k

unfoldable pub run_tasks : UserCode → List Task → Cmd World (Unit {0})
run_tasks u [] = pure tt
run_tasks u (t ∷ ts) = run_task u t >> run_tasks u ts

unfoldable pub on_executor : ℕ → (Executor Task → Executor Task) → World → World
on_executor x f w = record w { executor = update w.executor x (f (w.executor x)) }

-- A task must not execute the same executor: that would swap the buffer that is being read.
unfoldable pub execute : UserCode → ℕ → Cmd World (Unit {0})
execute u x = do
  modify (on_executor x swap_buffers)
  (λ w. run_tasks u (w.executor x).back_buffer w)
  modify (on_executor x clear_back_buffer)
