-- ===== src/Query/Interface/Call/Filtered.antt =====
-- `prepend_filter` of if_async_query.h on a client's copy, and the requests that wait meanwhile.
use minicomps.Prelude.{
  ℕ, ◌+◌, ◌≡◌, ◌≢◌, refl, ap, ◌∙◌, true, Option, some, ok, modify, ◌>>◌, arith, ==_self,
}
use minicomps.Callback.{Callback, Handler, wrapped, Task, RequestData}
use minicomps.Executor.{Executor, idle, clear_back_buffer, swap_buffers}
use minicomps.World.{World, UserCode, async, note, set_component, enqueue, run_async}
use minicomps.Query.Sync.{lock_component}
use minicomps.Query.Sync.Bracket.{
  depth, lock_component-depth, unlock_component-released, released, released-depth,
}
use minicomps.Query.Interface.Shared.{set_query, prepend_own}
use minicomps.Query.Interface.AsyncQuery.{prepend_filter}
use minicomps.Query.Interface.Copies.{IsCopy, lock_weak-some}
use minicomps.Query.Interface.Call.{execute, run_if_request}
use minicomps.Query.Interface.Call.RoundTrip.{executor_of, data_of, executed, execute-executed}
use minicomps.Query.Loop
use minicomps.Query.Loop.{run_task, on_executor}
use minicomps.Query.Loop.Exchange.{result_of, execute-one_task, enqueued-one_task}

module _ (f j c : ℕ) (h : Handler) where
  -- The world while `prepend_own` holds the lock and after its assignment.
  abbrev assigned : World → World
  assigned w =
      set_query j (record (w.if_query j) { handler = some (wrapped f h) }) (lock_component c w)

  abbrev prepended : World → World
  prepended w = released c (assigned w)

  assigned-depth : (w : World) → depth c (assigned w) ≡ depth c w + 1
  unfolding set_query
  assigned-depth w = lock_component-depth c w

  prepend_own-prepended :
      (w : World)
      → w.alive c ≡ true
      → (w.if_query j).handling_component ≡ some c
      → (w.if_query j).handler ≡ some h
      → prepend_own f j w ≡ ok tt (prepended w)
  unfolding prepend_own lock_component
  prepend_own-prepended w a e k =
      rw
        (
          prepend_own,
          lock_weak-some w.alive (w.if_query j).handling_component c e a,
          k,
          unlock_component-released c (assigned w) (omega (arith, assigned-depth w)),
        )
        refl

  -- The world after `prepend_filter` on a copy: the lock is taken twice.
  abbrev pub filtered_copy : World → World
  filtered_copy w = released c (prepended (lock_component c w))

  prepended-depth : (w : World) → depth c (prepended (lock_component c w)) ≡ depth c w + 1
  prepended-depth w =
      released-depth c (depth c w + 1) (assigned (lock_component c w))
        (assigned-depth (lock_component c w) ∙ ap (λ n. n + 1) (lock_component-depth c w))

  filtered_copy-depth : (w : World) → depth c (filtered_copy w) ≡ depth c w
  filtered_copy-depth w =
      released-depth c (depth c w) (prepended (lock_component c w)) (prepended-depth w)

  prepend_filter-filtered_copy :
      (i x s : ℕ) (w : World)
      → IsCopy async w j c x s (w.if_query i)
      → w.alive c ≡ true
      → (w.if_query j).handling_component ≡ some c
      → (w.if_query j).handler ≡ some h
      → prepend_filter f i w ≡ ok tt (filtered_copy w)
  unfolding lock_component note set_component prepend_filter
  prepend_filter-filtered_copy i x s w q a e k =
      rw
        (
          prepend_filter,
          q.exists,
          q.linked,
          q.component,
          prepend_own-prepended (lock_component c w) a e k,
          unlock_component-released c (prepended (lock_component c w))
              (omega (arith, prepended-depth w)),
        )
        refl

  filtered_copy-handler : (w : World) → ((filtered_copy w).if_query j).handler ≡ some (wrapped f h)
  unfolding set_query note set_component
  filtered_copy-handler w = rw (==_self j) refl

  filtered_copy-executor : (x : ℕ) (w : World) → (filtered_copy w).executor x ≡ w.executor x
  unfolding set_query note set_component lock_component
  filtered_copy-executor x w = refl

-- Neither the round nor the enqueueing touches queries and locks.
module _ (c x : ℕ) (g : Executor Task → Executor Task) (w : World) where
  on_executor-depth : depth c (on_executor x g w) ≡ depth c w
  unfolding on_executor
  on_executor-depth = refl

  on_executor-if_query : (on_executor x g w).if_query ≡ w.if_query
  unfolding on_executor
  on_executor-if_query = refl

module _ (u : UserCode) (i j c x s : ℕ) (callback : Callback) (lifetime : Option ℕ) (arguments : ℕ)
    (w : World) where
  executed-depth : depth c (executed u i j c x s callback lifetime arguments w) ≡ depth c w
  unfolding enqueue
  executed-depth = refl

  executed-IsCopy :
      IsCopy async w j c x s (w.if_query i)
      → IsCopy async (executed u i j c x s callback lifetime arguments w) j c x s (w.if_query i)
  unfolding enqueue
  executed-IsCopy q = record {
    kind = q.kind;
    linked = q.linked;
    exists = q.exists;
    component = q.component;
    executor = q.executor;
    sender = q.sender;
    direct = q.direct;
    handler = q.handler;
  }

run_if_request-wrapped :
    (u : UserCode) (f j msg : ℕ) (h : Handler) (d : RequestData) (w : World)
    → (w.if_query j).handler ≡ some (wrapped f h)
    → run_task u (Task.if_request j msg d) w ≡ u.if_async_filter f d.arguments (result_of msg d) h w
unfolding run_task run_if_request run_async
run_if_request-wrapped u f j msg h d w e = rw (run_task, run_if_request, e, run_async) refl

-- A client calls an asynchronous query on another, idle executor through its copy, and puts a filter on
-- the copy while the request waits. Then the next round of that executor runs the filter on the
-- request, with the handler that the query had for it to pass the request on to; the query itself has
-- the filter from then on, and the component's lock is as deep as before the call.
pub prepend_filter-run_if_request :
    (u : UserCode) (f i j c x s : ℕ) (h : Handler) (callback : Callback) (lifetime : Option ℕ)
    (arguments : ℕ) (w : World)
    → IsCopy async w j c x s (w.if_query i)
    → w.alive c ≡ true
    → (w.if_query j).handling_component ≡ some c
    → (w.if_query j).handler ≡ some h
    → x ≢ executor_of s w
    → w.executor x ≡ idle
    → (w' : World) × ((w'.if_query j).handler ≡ some (wrapped f h))
      × (depth c w' ≡ depth c w)
      × ((execute u i callback lifetime arguments >> prepend_filter f i >> Loop.execute u x) w
          ≡ (u.if_async_filter f arguments
                  (result_of
                    (w.if_query i).name
                    (data_of u i j c x s callback lifetime arguments w))
                  h
                >> modify (on_executor x clear_back_buffer))
              w')
unfolding enqueue
prepend_filter-run_if_request u f i j c x s h callback lifetime arguments w q a e k n ex =
    let v = executed u i j c x s callback lifetime arguments w in
    let msg = (w.if_query i).name in
    let d = data_of u i j c x s callback lifetime arguments w in
    let t = Task.if_request j msg d in
    let ready = filtered_copy f j c h v in
    let w' = on_executor x swap_buffers ready in
    let put_on : (w'.if_query j).handler ≡ some (wrapped f h) =
      ap (λ qs. (qs j).handler) (on_executor-if_query c x swap_buffers ready)
      ∙ filtered_copy-handler f j c h v in
    (
      w',
      put_on,
      on_executor-depth c x swap_buffers ready
          ∙ filtered_copy-depth f j c h v
          ∙ executed-depth u i j c x s callback lifetime arguments w,
      rw
          (
            execute-executed u i j c x s callback lifetime arguments w h q k n,
            prepend_filter-filtered_copy f j c h i x s v
                (executed-IsCopy u i j c x s callback lifetime arguments w q) a e k,
            execute-one_task u x t ready
                (filtered_copy-executor f j c h x v ∙ enqueued-one_task x t w ex),
            run_if_request-wrapped u f j msg h d w' put_on,
          )
          refl,
    )
