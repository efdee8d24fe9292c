-- ===== src/Query/Loop/Exchange.antt =====
-- A request that waits on one executor and is answered on another: executor.h and callback.h together,
-- whatever task the request is.
use minicomps.Prelude.{
  ℕ, ◌≡◌, ◌≢◌, refl, ap, ◌∙◌, List, [], ◌∷◌, ok, abort, undefined, Outcome, Cmd, and_then, pure,
  modify, ◌>>◌, if◌then◌else◌, arith,
}
use minicomps.Callback.{CallbackResult, RequestData, Task, new_result}
use minicomps.Executor.{Executor, idle, swap_buffers, clear_back_buffer}
use minicomps.World.{World, UserCode, Entry, enqueue, expired_lifetime}
use minicomps.World.Effects.{with_log, with_work, enqueue-executor}
use minicomps.Query.Result.{report, run_callback, run_response}
use minicomps.Query.Result.Once.{answer, reported}
use minicomps.Query.Loop.{run_task, run_tasks, on_executor, execute}
use minicomps.Query.Loop.Rounds.{on_executor-executor, swap-full}

-- An executor that one task waits on.
abbrev pub one_task : Task → Executor Task
one_task t = record { work_items = t ∷ []; back_buffer = [] }

and_then-pure :
    {S : Type 0} (o : Outcome S (Unit {0})) (k : Cmd S (Unit {0}))
    → and_then (and_then o (λ a. pure tt)) (λ a. k) ≡ and_then o (λ a. k)
and_then-pure (ok a s) k = refl
and_then-pure abort k = refl
and_then-pure undefined k = refl

pub execute-one_task :
    (u : UserCode) (x : ℕ) (t : Task) (w : World)
    → w.executor x ≡ one_task t
    → execute u x w
      ≡ (run_task u t >> modify (on_executor x clear_back_buffer)) (on_executor x swap_buffers w)
unfolding execute run_tasks
execute-one_task u x t w e =
    rw
      (ap (λ (d : Executor Task). d.back_buffer)
        (on_executor-executor x swap_buffers w ∙ ap swap_buffers e ∙ swap-full (t ∷ [])))
      (and_then-pure (run_task u t (on_executor x swap_buffers w))
        (modify (on_executor x clear_back_buffer)))

-- The handler reports as soon as it is called, with a result that depends on the arguments.
abbrev pub Answers : UserCode → ℕ → (ℕ → ℕ) → Type 0
Answers u k f =
    (arguments : ℕ) (r : CallbackResult) (w : World)
    → u.async_handler k arguments r w ≡ (report u r (f arguments) >> pure tt) w

-- The `callback_result` that a queued request is run with.
abbrev pub result_of : ℕ → RequestData → CallbackResult
result_of msg d = new_result d.receiver_executor d.lifetime d.receiver d.sender msg d.callback

on_executor-other :
    (x y : ℕ) (f : Executor Task → Executor Task) (w : World)
    → x ≢ y
    → (on_executor x f w).executor y ≡ w.executor y
unfolding on_executor
on_executor-other x y f w n = ground arith

pub enqueued-one_task :
    (z : ℕ) (t : Task) (v : World) → v.executor z ≡ idle → (enqueue z t v).executor z ≡ one_task t
enqueued-one_task z t v e = enqueue-executor z t v ∙ ap (λ d. with_work d (t ∷ [])) e

enqueue-other : (x y : ℕ) (t : Task) (w : World) → x ≢ y → (enqueue x t w).executor y ≡ w.executor y
unfolding enqueue
enqueue-other x y t w n = ground arith

-- The request `t` has been put in the idle queue `x`, and the listener has heard `es`. Its handler
-- reports `result` to `r`, whose executor is `y`.
module _ (u : UserCode) (t : Task) (r : CallbackResult) (x y result : ℕ) (es : List Entry)
    (w : World) where
  abbrev requested : World
  requested = with_log (enqueue x t w) es

  abbrev after_swap : World
  after_swap = on_executor x swap_buffers requested

  -- The world after the receiver's round.
  abbrev answered : World
  answered = on_executor x clear_back_buffer (reported y r result after_swap)

  abbrev pub Reports : Type 0
  Reports = run_task u t after_swap ≡ ok tt (reported y r result after_swap)

  receiver-round : Reports → w.executor x ≡ idle → execute u x requested ≡ ok tt answered
  unfolding on_executor enqueue
  receiver-round ran e = rw (execute-one_task u x t requested (enqueued-one_task x t w e), ran) refl

  answered-one_task :
      x ≢ y → w.executor y ≡ idle → answered.executor y ≡ one_task (Task.response (answer r result))
  answered-one_task n e =
      on_executor-other x y clear_back_buffer (reported y r result after_swap) n
      ∙ enqueued-one_task y (Task.response (answer r result)) after_swap
          (on_executor-other x y swap_buffers requested n ∙ enqueue-other x y t w n ∙ e)

  -- The receiver's round and then the sender's: the callback runs in the second one, unless the
  -- lifetime has expired.
  pub execute-run_callback :
      Reports
      → x ≢ y
      → w.executor x ≡ idle
      → w.executor y ≡ idle
      → (w' : World) × (w'.lifetimes ≡ w.lifetimes)
        × ((execute u x >> execute u y) requested
            ≡ ((if expired_lifetime w r.lifetime_ptr
                    then pure tt
                    else run_callback u r.callback result)
                  >> modify (on_executor y clear_back_buffer))
                w')
  unfolding on_executor enqueue run_task run_response
  execute-run_callback ran n ex ey = (
    on_executor y swap_buffers answered,
    refl,
    rw
        (
          receiver-round ran ex,
          execute-one_task u y (Task.response (answer r result)) answered (answered-one_task n ey),
        )
        (ground arith),
  )
