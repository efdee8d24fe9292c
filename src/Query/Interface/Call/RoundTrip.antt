-- ===== src/Query/Interface/Call/RoundTrip.antt =====
-- A call of an asynchronous query of an interface through a client's copy of it, across two executors:
-- if_async_query.h, callback.h and executor.h together.
use minicomps.Prelude.{
  ℕ, ◌≡◌, ◌≢◌, refl, false, Bool, true, Option, some, ok, pure, modify, ◌>>◌, if◌then◌else◌, arith,
  ◌==◌, ==_self,
}
use minicomps.Component.{Component, request}
use minicomps.Callback.{Callback, RequestData, Task, code, Handler}
use minicomps.Executor.{idle, clear_back_buffer, swap_buffers}
use minicomps.World.{
  World, UserCode, IfQuery, async, on_enqueue, enqueue, expired_lifetime, run_async,
}
use minicomps.World.Effects.{heard, with_log, notify-log}
use minicomps.Query.Result.{run_callback}
use minicomps.Query.Result.Once.{reported, report-reported}
use minicomps.Query.Interface.{copy_query}
use minicomps.Query.Interface.AsyncQuery
use minicomps.Query.Interface.Shared.{set_query, set_handler}
use minicomps.Query.Interface.AsyncQuery.{may_call_directly}
use minicomps.Query.Interface.Copies.{
  IsCopy, calls_directly, publish_member, copy_query-publish_member,
}
use minicomps.Query.Interface.Call.{link, execute, execute_queued, run_if_request}
use minicomps.Query.Loop
use minicomps.Query.Loop.{run_task, on_executor}
use minicomps.Query.Loop.Exchange.{Answers, result_of, execute-run_callback}

abbrev pub executor_of : ℕ → World → ℕ
executor_of s w = (w.component s).default_executor

pub may_call_directly-false : (c : Component) (b : Bool) → b ≡ false → may_call_directly c b ≡ false
may_call_directly-false c b e = ground arith

run_if_request-reported :
    (u : UserCode) (j k msg y : ℕ) (f : ℕ → ℕ) (d : RequestData) (w : World)
    → Answers u k f
    → (w.if_query j).handler ≡ some (code k)
    → d.receiver_executor ≡ some y
    → run_task u (Task.if_request j msg d) w
      ≡ ok tt (reported y (result_of msg d) (f d.arguments) w)
unfolding run_task run_if_request run_async
run_if_request-reported u j k msg y f d w a h e =
    rw
      (
        run_task,
        run_if_request,
        h,
        run_async,
        a d.arguments (result_of msg d) w,
        report-reported u (result_of msg d) y (f d.arguments) w e,
      )
      refl

module _ (u : UserCode) (i j c x s : ℕ) (callback : Callback) (lifetime : Option ℕ) (arguments : ℕ)
    (w : World) where
  -- What the request carries.
  abbrev pub data_of : RequestData
  data_of = record {
    arguments = arguments;
    callback = callback;
    receiver_executor = some (executor_of s w);
    lifetime = lifetime;
    receiver = s;
    sender = c;
  }

  -- What the listener of the component that handles the query hears.
  abbrev pub executed : World
  executed =
      with_log (enqueue x (Task.if_request j (w.if_query i).name data_of) w)
        (heard (w.component c).listener (λ l. on_enqueue l s c (w.if_query i).name request))

  pub execute-executed :
      (h : Handler)
      → IsCopy async w j c x s (w.if_query i)
      → (w.if_query j).handler ≡ some h
      → x ≢ executor_of s w
      → execute u i callback lifetime arguments w ≡ ok tt executed
  unfolding execute link execute_queued calls_directly enqueue
  execute-executed h q e n =
      rw
        (
          execute,
          link,
          q.exists,
          q.linked,
          e,
          q.sender,
          q.component,
          q.direct,
          may_call_directly-false (w.component c) (x == executor_of s w) (ground arith),
          q.executor,
          notify-log (w.component c).listener (λ l. on_enqueue l s c (w.if_query i).name request)
              (enqueue x (Task.if_request j (w.if_query i).name data_of) w),
        )
        refl

-- The call through a copy whose query has the handler `k`, which reports at once.
pub execute-copy :
    (u : UserCode) (i j c x s k : ℕ) (callback : Callback) (lifetime : Option ℕ) (arguments : ℕ)
    (f : ℕ → ℕ) (w : World)
    → IsCopy async w j c x s (w.if_query i)
    → (w.if_query j).handler ≡ some (code k)
    → Answers u k f
    → x ≢ executor_of s w
    → w.executor x ≡ idle
    → w.executor (executor_of s w) ≡ idle
    → (w' : World) × (w'.lifetimes ≡ w.lifetimes)
      × ((execute u i callback lifetime arguments
              >> Loop.execute u x
              >> Loop.execute u (executor_of s w))
            w
          ≡ ((if expired_lifetime w lifetime
                  then pure tt
                  else run_callback u callback (f arguments))
                >> modify (on_executor (executor_of s w) clear_back_buffer))
              w')
unfolding on_executor enqueue
execute-copy u i j c x s k callback lifetime arguments f w q h a n ex ey =
    let name = (w.if_query i).name in
    let d = data_of u i j c x s callback lifetime arguments w in
    let heard_by = heard (w.component c).listener (λ l. on_enqueue l s c name request) in
    let (w', same, ran) =
      execute-run_callback u (Task.if_request j name d) (result_of name d) x (executor_of s w)
        (f arguments) heard_by w
        (run_if_request-reported u j k name (executor_of s w) f d
          (on_executor x swap_buffers (executed u i j c x s callback lifetime arguments w)) a h
          refl)
        n ex ey in
    (w', same, rw (execute-executed u i j c x s callback lifetime arguments w (code k) q h n) ran)

-- The client keeps the copy `q` of the query `j` as its query `i`.
abbrev pub with_copy : (i j k c x : ℕ) → IfQuery → World → World
with_copy i j k c x q w = set_query i q (publish_member async j (code k) c x w)

with_copy-IsCopy :
    (i j k c x s : ℕ) (q : IfQuery) (w : World)
    → IsCopy async w j c x s q
    → IsCopy async (with_copy i j k c x q w) j c x s ((with_copy i j k c x q w).if_query i)
unfolding set_query publish_member AsyncQuery.publish set_handler
with_copy-IsCopy i j k c x s q w copied = rw (==_self i) (record {
  kind = copied.kind;
  linked = copied.linked;
  exists = copied.exists;
  component = copied.component;
  executor = copied.executor;
  sender = copied.sender;
  direct = copied.direct;
  handler = copied.handler;
})

with_copy-handler :
    (i j k c x : ℕ) (q : IfQuery) (w : World)
    → i ≢ j
    → ((with_copy i j k c x q w).if_query j).handler ≡ some (code k)
unfolding set_query publish_member AsyncQuery.publish set_handler
with_copy-handler i j k c x q w n = ground arith

-- A live component publishes an asynchronous query of an interface on an idle executor, and a client
-- on another idle executor copies the query. If the handler reports at once, then after a call through
-- the copy and one round of each executor the callback has run exactly once, on the handler's result
-- and in the client's round, unless the lifetime of the call has expired; then it has not run.
pub publish_member-run_callback :
    (u : UserCode) (i j c x s k : ℕ) (callback : Callback) (lifetime : Option ℕ) (arguments : ℕ)
    (f : ℕ → ℕ) (w : World)
    → (w.if_query j).kind ≡ async
    → i ≢ j
    → w.alive c ≡ true
    → w.executor_alive x ≡ true
    → w.current_component ≡ some s
    → Answers u k f
    → x ≢ executor_of s w
    → w.executor x ≡ idle
    → w.executor (executor_of s w) ≡ idle
    → (q : IfQuery) × (copy_query (publish_member async j (code k) c x w) j ≡ some q)
      × (w' : World) × (w'.lifetimes ≡ w.lifetimes)
      × ((execute u i callback lifetime arguments
              >> Loop.execute u x
              >> Loop.execute u (executor_of s w))
            (with_copy i j k c x q w)
          ≡ ((if expired_lifetime w lifetime
                  then pure tt
                  else run_callback u callback (f arguments))
                >> modify (on_executor (executor_of s w) clear_back_buffer))
              w')
unfolding set_query publish_member AsyncQuery.publish set_handler
publish_member-run_callback u i j c x s k callback lifetime arguments f w e n al xl cur a nx ex ey =
    let (q, made, copied) = copy_query-publish_member async j c x s (code k) w e al xl cur in
    let (w', same, ran) =
      execute-copy u i j c x s k callback lifetime arguments f (with_copy i j k c x q w)
        (with_copy-IsCopy i j k c x s q w copied) (with_copy-handler i j k c x q w n) a nx ex ey in
    (q, made, w', same, ran)
