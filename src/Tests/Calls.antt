-- ===== src/Tests/Calls.antt =====
-- Component 1 calls handlers of the components 2 and 3; the callback belongs to lifetime object 1.
use minicomps.Prelude.{
  ℕ, ◌+◌, ◌≡◌, refl, Bool, true, false, Option, none, some, List, [], ◌∷◌, ◌++◌, ok, pure, modify,
  ◌>>◌, ◌>>=◌, sym, append-nil, if◌then◌else◌, arith, update, Pairs,
}
use minicomps.Prelude
use minicomps.Component
use minicomps.Component.{locked_request, locked_response, request, response}
use minicomps.Callback.{user, CallbackResult, ResponseData, Task, code}
use minicomps.Executor.{clear_back_buffer}
use minicomps.Lifetime.{Lifetimes}
use minicomps.Lifetime.Expiry.{IsValid, owned_by_other}
use minicomps.World.{World, UserCode, locked, unlocked, expired_lifetime}
use minicomps.World.Effects.{with_log, with_work}
use minicomps.Ref.Mono
use minicomps.Ref.Poly
use minicomps.Ref.Poly.{ReceiverHandler}
use minicomps.Query.Async.{AsyncQuery, dispatch}
use minicomps.Query.Event.{EventSource, publish}
use minicomps.Query.Event.Subscribed.{subscribe_all}
use minicomps.Query.Event.Published.{Receives, publish-sent}
use minicomps.Broker.Table.{receivers}
use minicomps.Query.Event.Delivery.{sent, executor_of}
use minicomps.Query.Result.{report, run_response, run_callback, spent}
use minicomps.Query.Result.Once.{answer, report_twice}
use minicomps.Query.Result.Cancel.{with_reset, run_response-reset}
use minicomps.Query.Sync.{SyncQuery, call_receiver}
use minicomps.Query.Sync.Bracket.{
  heard_call, heard_response, depth, entered, lock_component-depth, call_receiver-entered,
}
use minicomps.Query.Sync.Published.{IsAnswered, publish_sync_query-invoke}
use minicomps.Component.{lookup_executor_override}
use minicomps.Ref.Mono.{executor_for}
use minicomps.World.{set_component}
use minicomps.Base.Publish.{
  publish_sync_query, associate_with, set_sync_handler, add_dependency_info, new_handler,
  drop_handler,
}
use minicomps.Query.Loop.{on_executor, execute}
use minicomps.Query.Loop.Exchange.{Answers}
use minicomps.Query.Loop.RoundTrip.{sender_executor, dispatch-run_callback}
use minicomps.Tests.Worlds.{start, quiet}

-- A handler that reports through the queue of executor 4.
abbrev pending : CallbackResult
pending = record {
  msg_info = 7;
  receiving_executor = some 4;
  lifetime_ptr = some 5;
  sender_component = 2;
  target_component = 1;
  callback = user 9;
}

report_twice_example :
    (w : World) × ((report quiet pending 30 >>= λ r. report quiet r 31) start
      ≡ ok (spent pending) w)
    × (w.executor 4
        ≡ with_work
            (start.executor 4)
            (Task.response (answer pending 30) ∷ Task.response (answer (spent pending) 31) ∷ []))
    × ((v : World) → run_response quiet (answer (spent pending) 31) v ≡ ok tt v)
report_twice_example = report_twice quiet pending 4 30 31 start refl

-- An event of component 1.
abbrev ticker : EventSource
ticker = record { handler = 0; owning_component = 1; msg_info = 8 }

-- The lifetime object 1 owns block 5.
abbrev one_lifetime : Lifetimes
one_lifetime = record { objects = (1, 5) ∷ []; next_token = 6 }

one_lifetime-IsValid : IsValid one_lifetime
unfolding Prelude.find
one_lifetime-IsValid = record { distinct = (refl, tt); below = (omega arith, tt) }

-- The reference 0 is tied to component 2; `same` says whether this works on the sender's executor.
abbrev calling : Bool → World
calling same = record start {
  lifetimes = one_lifetime;
  handler = update start.handler 50 (some (code 3));
  mono_ref = λ i. record (Mono.new Mono.async 7 1) {
    handler = some 50;
    receiver = some 2;
    receiver_executor = some 2;
    same_executor = same;
  };
}

abbrev query : AsyncQuery
query = record { handler = 0; owning_component = 1; msg_info = 7; lifetime = 1 }

-- Its handlers answer the successor.
abbrev replying : UserCode
replying = record quiet { async_handler = λ k a r w. (report quiet r (a + 1) >> pure tt) w }

replying-Answers : Answers replying 3 (λ a. a + 1)
unfolding report run_callback
replying-Answers a r w = refl

dispatch-run_callback_example :
    (w : World) × (w.lifetimes ≡ one_lifetime)
    × ((dispatch replying query (some 50) (user 9) (some 5) 20
            >> execute replying 2
            >> execute replying (sender_executor query (calling false)))
          (calling false)
        ≡ ((if expired_lifetime (calling false) (some 5)
                then pure tt
                else run_callback replying (user 9) 21)
              >> modify (on_executor (sender_executor query (calling false)) clear_back_buffer))
            w)
unfolding Mono.new Component.new
dispatch-run_callback_example =
    dispatch-run_callback replying query 50 2 2 3 (user 9) (some 5) 20 (λ a. a + 1) (calling false)
      refl refl refl refl replying-Answers (λ e. omega (arith, e)) refl refl

-- A response that waits, and the reset of its lifetime.
abbrev waiting_response : ResponseData
waiting_response = record { result = 21; callback = user 9; lifetime = some 5 }

run_response-reset_example : run_response quiet waiting_response (with_reset 1 (calling false)) ≡ (
    if owned_by_other 1 5 one_lifetime.objects
    then run_callback quiet (user 9) 21 (with_reset 1 (calling false))
    else ok tt (with_reset 1 (calling false)))
run_response-reset_example =
    run_response-reset quiet waiting_response 1 5 (calling false) one_lifetime-IsValid (omega arith)
      refl

abbrev sync_query : SyncQuery
sync_query = record { handler = 0; owning_component = 1; msg_info = 7; fallback_handler = none }

call_receiver-entered_example :
    (w : World) × (call_receiver quiet sync_query 50 20 (calling false) ≡ ok 20 w)
    × (depth 2 w ≡ depth 2 (calling false))
    × (w.log
        ≡ []
          ++ heard_call sync_query 2 locked_request (calling false)
          ++ locked 2 ∷ []
          ++ unlocked 2 ∷ heard_response sync_query 2 locked_response (calling false))
unfolding Mono.new
call_receiver-entered_example =
    call_receiver-entered quiet sync_query 2 50 3 20 20 [] (calling false)
      (entered sync_query 2 (calling false)) refl refl refl refl
      (lock_component-depth 2
        (with_log (calling false) (heard_call sync_query 2 locked_request (calling false))))
      (sym (append-nil (entered sync_query 2 (calling false)).log))

-- Components 2 and 3 subscribe to event 8 of component 1.
abbrev ticking : World
ticking = record start { poly_ref = λ i. Poly.new 8 1 }

abbrev subscriptions : List (ℕ × ℕ)
subscriptions = (2, 3) ∷ (3, 4) ∷ []

publish-sent_example :
    (rs : List ReceiverHandler) × (w : World) × (publish quiet ticker 77
        (subscribe_all 8 subscriptions ticking)
      ≡ ok tt w)
    × Pairs (Receives (subscribe_all 8 subscriptions ticking)) subscriptions rs
    × ((x : ℕ)
        → w.executor x ≡ with_work (ticking.executor x) (sent quiet (executor_of ticking) x 77 rs))
unfolding Poly.new Component.new Prelude.find receivers
publish-sent_example =
    publish-sent quiet ticker 77 subscriptions ticking refl refl refl (refl, (refl, tt))
      (((λ e. omega (arith, e)), tt), (tt, tt)) (refl, (refl, tt))
      ((λ e. omega (arith, e)), ((λ e. omega (arith, e)), tt))

-- Component 2 publishes handler 3 for message 7, and component 1 has an uncached reference to it.
abbrev asking : World
asking = record start { mono_ref = λ i. Mono.new Mono.sync 7 1 }

publish_sync_query-invoke_example :
    IsAnswered quiet sync_query 2 20 20 (publish_sync_query 2 7 3 asking)
unfolding Mono.new Component.new Prelude.find receivers publish_sync_query associate_with
    set_sync_handler add_dependency_info new_handler drop_handler set_component executor_for
    lookup_executor_override
publish_sync_query-invoke_example =
    publish_sync_query-invoke quiet sync_query 2 3 20 (λ a. a) asking refl refl refl refl refl refl
      (λ e. omega (arith, e)) (λ a w. refl)
