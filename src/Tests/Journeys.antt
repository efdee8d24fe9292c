-- ===== src/Tests/Journeys.antt =====
-- Component 2 publishes handler 3 for message 7 on executor 5, and component 1 calls it.
use minicomps.Prelude
use minicomps.Prelude.{
  ℕ, ◌+◌, ◌≡◌, refl, none, some, [], ◌∷◌, ok, undefined, pure, modify, ◌>>◌, arith, update,
}
use minicomps.Component
use minicomps.Broker.Table.{receivers}
use minicomps.Callback.{user, code, RequestData, Task}
use minicomps.Executor.{swap_buffers, clear_back_buffer}
use minicomps.Ref.Mono
use minicomps.World.{World, UserCode, run_async}
use minicomps.Base.Publish.{publish_async_query, prepend_async_query_filter}
use minicomps.Query.Async
use minicomps.Query.Async.{QueryInvoker}
use minicomps.Query.Result.{report, run_callback}
use minicomps.Query.Loop
use minicomps.Query.Loop.{on_executor}
use minicomps.Query.Loop.Exchange.{Answers, one_task, result_of}
use minicomps.Query.Loop.Replaced.{publish_async_query-undefined}
use minicomps.Query.Loop.Published.{Delivers, publish_async_query-run_callback}
use minicomps.Tests.Worlds.{start, quiet}

abbrev caller : World
caller = record start {
  lifetimes = record { objects = (1, 5) ∷ []; next_token = 6 };
  mono_ref = λ i. Mono.new Mono.async 7 1;
}

abbrev asking : QueryInvoker
asking =
    Async.with_callback
      (Async.call (record { handler = 0; owning_component = 1; msg_info = 7; lifetime = 1 }) 20
        caller)
      (user 9)

abbrev pub successor : UserCode
successor = record quiet { async_handler = λ k a r w. (report quiet r (a + 1) >> pure tt) w }

pub successor-Answers : Answers successor 3 (λ a. a + 1)
unfolding report run_callback
successor-Answers a r w = refl

publish_async_query-run_callback_example :
    Delivers successor asking 5 1 21 (publish_async_query 2 7 3 (some 5) caller)
unfolding Mono.new Component.new Prelude.find Async.call Async.with_callback receivers
publish_async_query-run_callback_example =
    publish_async_query-run_callback successor asking 2 3 (some 5) (λ a. a + 1) caller refl refl
      refl refl refl refl successor-Answers (λ e. omega (arith, e)) refl refl

-- A request for handler object 50 of component 2 waits on executor 2.
abbrev waiting_request : RequestData
waiting_request = record {
  arguments = 20;
  callback = user 9;
  receiver_executor = some 1;
  lifetime = none;
  receiver = 1;
  sender = 2;
}

abbrev in_queue : World
in_queue = record caller {
  component = λ c. record (Component.new "sample" c c) { async_handlers = (7, 50) ∷ [] };
  handler = update caller.handler 50 (some (code 3));
  next_handler = 51;
  executor = λ x. one_task (Task.request 50 7 waiting_request);
}

publish_async_query-undefined_example :
    (Loop.execute successor 2 (publish_async_query 2 7 6 none in_queue) ≡ undefined)
    × (w : World) × (prepend_async_query_filter 2 7 4 in_queue ≡ ok tt w)
    × (Loop.execute successor 2 w
        ≡ (run_async successor (code 3) 20 (result_of 7 waiting_request)
              >> modify (on_executor 2 clear_back_buffer))
            (on_executor 2 swap_buffers w))
unfolding Component.new Prelude.find
publish_async_query-undefined_example =
    publish_async_query-undefined successor 2 7 50 6 4 2 none (code 3) waiting_request in_queue refl
      refl (omega arith) refl
