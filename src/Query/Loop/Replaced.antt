-- ===== src/Query/Loop/Replaced.antt =====
-- A request of async_query.h that waits in a queue while component_base.h changes the handler of its
-- message: the task keeps the address that the look-up gave.
use minicomps.Prelude.{
  ℕ, ◌<◌, ◌≡◌, refl, Option, none, some, ok, undefined, modify, ◌>>◌, arith, find, ap, ◌∙◌,
}
use minicomps.Callback.{Handler, RequestData, Task}
use minicomps.Executor.{clear_back_buffer, swap_buffers}
use minicomps.World.{World, UserCode, handler_at, run_async, set_component}
use minicomps.Base.Publish.{
  publish_async_query, prepend_async_query_filter, filter_handler, set_async_handler, drop_handler,
  new_handler, set_override, add_dependency_info, associate_with,
}
use minicomps.Base.Publish.Filter.{after, after-fields}
use minicomps.Query.Async.{run_request}
use minicomps.Query.Loop.{run_task, on_executor, execute}
use minicomps.Query.Loop.Exchange.{one_task, result_of, execute-one_task}

drop_handler-dropped : (p : ℕ) (w : World) → (drop_handler (some p) w).handler p ≡ none
unfolding drop_handler
drop_handler-dropped p w = ground arith

drop_handler-executor : (o : Option ℕ) (w : World) → (drop_handler o w).executor ≡ w.executor
unfolding drop_handler
drop_handler-executor none w = refl
drop_handler-executor (some p) w = ground arith

-- The object that a publication replaces is gone, and the queues are as they were.
publish_async_query-dropped :
    (c msg p k : ℕ) (ov : Option ℕ) (w : World)
    → find msg (w.component c).async_handlers ≡ some p
    → ((publish_async_query c msg k ov w).handler p ≡ none)
      × ((publish_async_query c msg k ov w).executor ≡ w.executor)
unfolding publish_async_query set_override add_dependency_info set_component set_async_handler
    associate_with new_handler
publish_async_query-dropped c msg p k ov w e =
    rw e (drop_handler-dropped p _, drop_handler-executor (some p) _)

on_executor-handler : (x p : ℕ) (w : World) → (on_executor x swap_buffers w).handler p ≡ w.handler p
unfolding on_executor
on_executor-handler x p w = refl

run_request-undefined :
    (u : UserCode) (p msg : ℕ) (d : RequestData) (w : World)
    → w.handler p ≡ none
    → run_task u (Task.request p msg d) w ≡ undefined
unfolding run_task run_request handler_at
run_request-undefined u p msg d w e = rw (run_task, run_request, handler_at, e) refl

run_request-handler :
    (u : UserCode) (p msg : ℕ) (h : Handler) (d : RequestData) (w : World)
    → w.handler p ≡ some h
    → run_task u (Task.request p msg d) w ≡ run_async u h d.arguments (result_of msg d) w
unfolding run_task run_request handler_at
run_request-handler u p msg h d w e = rw (run_task, run_request, handler_at, e) refl

after-executor :
    (c msg f p : ℕ) (h : Handler) (w : World) → (after c msg f p h w).executor ≡ w.executor
unfolding set_async_handler new_handler drop_handler set_component
after-executor c msg f p h w = refl

-- A request waits, alone in a queue, for the handler that a component has published for a message. If
-- the component publishes another handler for the message, the next round of the queue calls an object
-- that is gone. If it puts a filter on the query instead, which ends normally, the next round runs the
-- request on the handler that it was made for, without the filter.
pub publish_async_query-undefined :
    (u : UserCode) (c msg p k f x : ℕ) (ov : Option ℕ) (h : Handler) (d : RequestData) (w : World)
    → find msg (w.component c).async_handlers ≡ some p
    → w.handler p ≡ some h
    → p < w.next_handler
    → w.executor x ≡ one_task (Task.request p msg d)
    → (execute u x (publish_async_query c msg k ov w) ≡ undefined)
      × (w' : World) × (prepend_async_query_filter c msg f w ≡ ok tt w')
      × (execute u x w'
          ≡ (run_async u h d.arguments (result_of msg d)
                >> modify (on_executor x clear_back_buffer))
              (on_executor x swap_buffers w'))
unfolding prepend_async_query_filter filter_handler
publish_async_query-undefined u c msg p k f x ov h d w at live below waits =
    let w1 = publish_async_query c msg k ov w in
    let (gone, same) = publish_async_query-dropped c msg p k ov w at in
    let w2 = after c msg f p h w in
    let (top, kept, found) = after-fields c msg f p h w below in
    (
      rw
          (
            execute-one_task u x (Task.request p msg d) w1 (ap (λ e. e x) same ∙ waits),
            run_request-undefined u p msg d (on_executor x swap_buffers w1)
                (on_executor-handler x p w1 ∙ gone),
          )
          refl,
      w2,
      rw (prepend_async_query_filter, at, filter_handler, live) refl,
      rw
          (
            execute-one_task u x (Task.request p msg d) w2
                (ap (λ e. e x) (after-executor c msg f p h w) ∙ waits),
            run_request-handler u p msg h d (on_executor x swap_buffers w2)
                (on_executor-handler x p w2 ∙ kept ∙ live),
          )
          refl,
    )
