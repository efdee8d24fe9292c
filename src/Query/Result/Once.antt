-- ===== src/Query/Result/Once.antt =====
-- A `callback_result` of callback.h that is called through a queue, and its second call.
use minicomps.Prelude.{ℕ, ◌≡◌, refl, ap, ◌∙◌, some, [], ◌∷◌, ok, append_assoc, ◌>>=◌}
use minicomps.Component.{response}
use minicomps.Callback.{CallbackResult, ResponseData, Task}
use minicomps.Lifetime
use minicomps.World.{World, UserCode, enqueue, on_enqueue}
use minicomps.World.Effects.{heard, with_log, with_work, notify-log, enqueue-executor}
use minicomps.Query.Result.{report, run_response, spent}

abbrev pub answer : CallbackResult → ℕ → ResponseData
answer r result = record { result = result; callback = r.callback; lifetime = r.lifetime_ptr }

-- The world after a call through the queue `x`.
abbrev pub reported : ℕ → CallbackResult → ℕ → World → World
reported x r result w = with_log (enqueue x (Task.response (answer r result)) w) (
    heard (w.component r.target_component).listener
      (λ l. on_enqueue l r.sender_component r.target_component r.msg_info response))

pub report-reported :
    (u : UserCode) (r : CallbackResult) (x result : ℕ) (w : World)
    → r.receiving_executor ≡ some x
    → report u r result w ≡ ok (spent r) (reported x r result w)
unfolding report enqueue
report-reported u r x result w e = rw (
  e,
  notify-log (w.component r.target_component).listener
      (λ l. on_enqueue l r.sender_component r.target_component r.msg_info response)
      (enqueue x (Task.response (answer r result)) w),
)

-- The task of a `callback_result` that has been called before.
pub run_response-spent :
    (u : UserCode) (r : CallbackResult) (result : ℕ) (w : World)
    → run_response u (answer (spent r) result) w ≡ ok tt w
unfolding run_response Lifetime.expired
run_response-spent u r result w = refl

reported-executor :
    (x : ℕ) (r : CallbackResult) (result : ℕ) (w : World)
    → (reported x r result w).executor x
      ≡ with_work (w.executor x) (Task.response (answer r result) ∷ [])
reported-executor x r result w = enqueue-executor x (Task.response (answer r result)) w

-- A handler that calls a `callback_result` of a sender on another executor twice enqueues two tasks
-- there: the first carries the callback, and the second does nothing whenever it runs.
pub report_twice :
    (u : UserCode) (r : CallbackResult) (x first second : ℕ) (w : World)
    → r.receiving_executor ≡ some x
    → (w' : World) × ((report u r first >>= λ r'. report u r' second) w ≡ ok (spent r) w')
      × (w'.executor x
          ≡ with_work
              (w.executor x)
              (Task.response (answer r first) ∷ Task.response (answer (spent r) second) ∷ []))
      × ((v : World) → run_response u (answer (spent r) second) v ≡ ok tt v)
report_twice u r x first second w e = (
  reported x (spent r) second (reported x r first w),
  rw (report-reported u r x first w e)
      (report-reported u (spent r) x second (reported x r first w) e),
  reported-executor x (spent r) second (reported x r first w)
      ∙ ap (λ q. with_work q (Task.response (answer (spent r) second) ∷ []))
          (reported-executor x r first w)
      ∙ ap (λ l. record (w.executor x) { work_items = l })
          (append_assoc (w.executor x).work_items (Task.response (answer r first) ∷ [])
            (Task.response (answer (spent r) second) ∷ [])),
  run_response-spent u r second,
)
