-- ===== src/Query/Loop/RoundTrip.antt =====
-- A call of an asynchronous query across two executors: async_query.h, callback.h and executor.h
-- together.
use minicomps.Prelude.{
  ℕ, ◌≡◌, ◌≢◌, refl, false, Option, some, ok, pure, modify, ◌>>◌, if◌then◌else◌,
}
use minicomps.Component.{request}
use minicomps.Callback.{Callback, RequestData, Task, code}
use minicomps.Executor.{idle, clear_back_buffer, swap_buffers}
use minicomps.World.{World, UserCode, on_enqueue, enqueue, expired_lifetime, handler_at, run_async}
use minicomps.World.Effects.{heard, with_log, notify-log}
use minicomps.Query.Async.{AsyncQuery, dispatch, invoke_queued, run_request}
use minicomps.Query.Result.{run_callback}
use minicomps.Query.Result.Once.{reported, report-reported}
use minicomps.Query.Loop.{run_task, on_executor, execute}
use minicomps.Query.Loop.Exchange.{Answers, result_of, execute-run_callback}

run_request-reported :
    (u : UserCode) (k p msg y : ℕ) (f : ℕ → ℕ) (d : RequestData) (w : World)
    → Answers u k f
    → w.handler p ≡ some (code k)
    → d.receiver_executor ≡ some y
    → run_task u (Task.request p msg d) w ≡ ok tt (reported y (result_of msg d) (f d.arguments) w)
unfolding run_task run_request handler_at run_async
run_request-reported u k p msg y f d w a h e =
    rw
      (
        run_task,
        run_request,
        handler_at,
        h,
        run_async,
        a d.arguments (result_of msg d) w,
        report-reported u (result_of msg d) y (f d.arguments) w e,
      )
      refl

abbrev pub sender_executor : AsyncQuery → World → ℕ
sender_executor q w = (w.component q.owning_component).default_executor

module _ (u : UserCode) (q : AsyncQuery) (p c x : ℕ) (callback : Callback) (lifetime : Option ℕ)
    (arguments : ℕ) (w : World) where
  -- What the request carries.
  abbrev data_of : RequestData
  data_of = record {
    arguments = arguments;
    callback = callback;
    receiver_executor = some (sender_executor q w);
    lifetime = lifetime;
    receiver = q.owning_component;
    sender = c;
  }

  -- What the listener of the receiver hears.
  abbrev dispatched : World
  dispatched =
      with_log (enqueue x (Task.request p q.msg_info data_of) w)
        (heard (w.component c).listener (λ l. on_enqueue l q.owning_component c q.msg_info request))

  dispatch-dispatched :
      (w.mono_ref q.handler).receiver ≡ some c
      → (w.mono_ref q.handler).same_executor ≡ false
      → (w.mono_ref q.handler).receiver_executor ≡ some x
      → dispatch u q (some p) callback lifetime arguments w ≡ ok tt dispatched
  unfolding dispatch invoke_queued enqueue
  dispatch-dispatched hc hs hx =
      rw
        (
          dispatch,
          hc,
          hs,
          hx,
          notify-log (w.component c).listener
              (λ l. on_enqueue l q.owning_component c q.msg_info request)
              (enqueue x (Task.request p q.msg_info data_of) w),
        )
        refl

-- A call whose receiver works on another executor, both queues being empty, and whose handler reports
-- at once: after the call and one round of each executor, the callback has run exactly once, on the
-- handler's result and in the sender's round, unless the lifetime of the call has expired; then it has
-- not run.
pub dispatch-run_callback :
    (u : UserCode) (q : AsyncQuery) (p c x k : ℕ) (callback : Callback) (lifetime : Option ℕ)
    (arguments : ℕ) (f : ℕ → ℕ) (w : World)
    → (w.mono_ref q.handler).receiver ≡ some c
    → (w.mono_ref q.handler).same_executor ≡ false
    → (w.mono_ref q.handler).receiver_executor ≡ some x
    → w.handler p ≡ some (code k)
    → Answers u k f
    → x ≢ sender_executor q w
    → w.executor x ≡ idle
    → w.executor (sender_executor q w) ≡ idle
    → (w' : World) × (w'.lifetimes ≡ w.lifetimes)
      × ((dispatch u q (some p) callback lifetime arguments
              >> execute u x
              >> execute u (sender_executor q w))
            w
          ≡ ((if expired_lifetime w lifetime
                  then pure tt
                  else run_callback u callback (f arguments))
                >> modify (on_executor (sender_executor q w) clear_back_buffer))
              w')
unfolding on_executor enqueue
dispatch-run_callback u q p c x k callback lifetime arguments f w hc hs hx h a n ex ey =
    let d = data_of u q p c x callback lifetime arguments w in
    let heard_by =
      heard (w.component c).listener (λ l. on_enqueue l q.owning_component c q.msg_info request) in
    let (w', same, ran) =
      execute-run_callback u (Task.request p q.msg_info d) (result_of q.msg_info d) x
        (sender_executor q w) (f arguments) heard_by w
        (run_request-reported u k p q.msg_info (sender_executor q w) f d
          (on_executor x swap_buffers (dispatched u q p c x callback lifetime arguments w)) a h
          refl)
        n ex ey in
    (w', same, rw (dispatch-dispatched u q p c x callback lifetime arguments w hc hs hx) ran)
