-- ===== src/Query/Loop/Published.antt =====
-- From the publishing of an asynchronous query to the callback of a call of it: component_base.h,
-- mono_ref.h, async_query.h, callback.h and executor.h together.
use minicomps.Prelude.{
  ℕ, ◌≡◌, ◌≢◌, refl, sym, ap, ◌∙◌, true, false, Option, none, some, [], ◌∷◌, pure, modify, ◌>>◌,
  if◌then◌else◌, find, put, arith, ==_self, subst,
}
use minicomps.Component.{Component}
use minicomps.Callback.{Handler, code}
use minicomps.Executor.{idle, clear_back_buffer}
use minicomps.Broker.Table.{receivers, receivers-associate}
use minicomps.World.{World, UserCode, components, set_component, expired_lifetime}
use minicomps.Ref.Mono
use minicomps.Ref.Mono.{MonoRef, Kind, executor_for}
use minicomps.Ref.Mono.Target.{is_cached}
use minicomps.Base.Publish.{
  publish_async_query, chosen_executor, associate_with, new_handler, drop_handler, set_override,
  set_async_handler, add_dependency_info,
}
use minicomps.Base.Publish.Reached.{
  no_receiver, publish_async_query-fields, publish_async_query-lookup,
}
use minicomps.Query.Result.{run_callback}
use minicomps.Query.Async.{QueryInvoker, lookup_mono, dispatch}
use minicomps.Query.Async
use minicomps.Query.Async.Found.{looked_up, lookup_mono-looked_up, looked_up-IsTied, IsTied-other}
use minicomps.Query.Loop.{on_executor, execute}
use minicomps.Query.Loop.Exchange.{Answers}
use minicomps.Query.Loop.RoundTrip.{sender_executor, dispatch-run_callback}

set_component-default :
    (c d : ℕ) (k : Component) (w : World)
    → k.default_executor ≡ (w.component c).default_executor
    → ((set_component c k w).component d).default_executor ≡ (w.component d).default_executor
unfolding set_component
set_component-default c d k w e = ground (arith, e)

set_async_handler-default :
    (c d msg : ℕ) (h : Handler) (w : World)
    → ((set_async_handler c msg h none w).component d).default_executor
      ≡ (w.component d).default_executor
unfolding set_async_handler drop_handler new_handler
set_async_handler-default c d msg h w =
    set_component-default c d
      (record (w.component c) {
        async_handlers = put msg w.next_handler (w.component c).async_handlers;
      })
      (new_handler h w) refl

-- What publishing leaves as it was.
publish_async_query-default :
    (c d msg k : ℕ) (ov : Option ℕ) (w : World)
    → find msg (w.component c).async_handlers ≡ none
    → ((publish_async_query c msg k ov w).component d).default_executor
      ≡ (w.component d).default_executor
unfolding publish_async_query add_dependency_info set_override associate_with
publish_async_query-default c d msg k ov w h = rw h (
    set_component-default c d _ _ refl
    ∙ set_component-default c d _ _ refl
    ∙ set_async_handler-default c d msg (code k) (associate_with c msg w))

publish_async_query-kept :
    (c msg k : ℕ) (ov : Option ℕ) (w : World)
    → find msg (w.component c).async_handlers ≡ none
    → let w' = publish_async_query c msg k ov w in
      (w'.mono_ref ≡ w.mono_ref) × (w'.executor ≡ w.executor)
unfolding publish_async_query associate_with new_handler drop_handler set_override set_async_handler
    add_dependency_info set_component
publish_async_query-kept c msg k ov w h = (rw h refl, rw h refl)

-- What one call and one round of each executor amount to.
abbrev pub Delivers : UserCode → QueryInvoker → (x y result : ℕ) → World → Type 0
Delivers u i x y result w =
    (w' : World) × (w'.lifetimes ≡ w.lifetimes)
    × ((Async.execute u i >> execute u x >> execute u y) w
        ≡ ((if expired_lifetime w i.lifetime then pure tt else run_callback u i.callback result)
              >> modify (on_executor y clear_back_buffer))
            w')

call_Delivers :
    (u : UserCode) (i : QueryInvoker) (p c x k : ℕ) (f : ℕ → ℕ) (w : World)
    → let r = w.mono_ref i.async_query.handler in
      is_cached w.broker r ≡ false
      → (Mono.lookup (components w) w.broker r).0 ≡ some p
      → receivers w.broker r.msg ≡ c ∷ []
      → r.component ≡ i.async_query.owning_component
      → executor_for (w.component c) r.msg ≡ x
      → w.handler p ≡ some (code k)
      → Answers u k f
      → x ≢ sender_executor i.async_query w
      → w.executor x ≡ idle
      → w.executor (sender_executor i.async_query w) ≡ idle
      → Delivers u i x (sender_executor i.async_query w) (f i.arguments) w
unfolding Async.execute
call_Delivers u i p c x k f w miss e l own at h a n ex ey =
    let q = i.async_query in
    let t = looked_up-IsTied q.handler c p w miss e l in
    let same =
      IsTied-other w q.handler c ((looked_up q.handler w).mono_ref q.handler) q.owning_component t
        own (λ z. n (sym at ∙ z)) in
    let (w', life, e') =
      dispatch-run_callback u q p c x k i.callback i.lifetime i.arguments f (looked_up q.handler w)
        t.receiver same (t.executor ∙ ap some at) h a n ex ey in
    (w', life, rw (lookup_mono-looked_up q.handler p w e) e')

listed_alone :
    (c msg k : ℕ) (ov : Option ℕ) (w : World)
    → find msg (w.component c).async_handlers ≡ none
    → receivers w.broker msg ≡ []
    → receivers (publish_async_query c msg k ov w).broker msg ≡ c ∷ []
listed_alone c msg k ov w new alone =
    ap (λ b. receivers b msg) (publish_async_query-fields c msg k ov w new).0
    ∙ receivers-associate w.broker msg c msg
    ∙ rw (==_self msg, alone) refl

-- A live component publishes an asynchronous query on an idle executor for a message that it has no
-- handler for and that has no receiver. Another component, whose executor is a different one and idle
-- too, calls it through its reference, which holds nothing cached, and the handler reports at once. After
-- the call and one round of each executor the callback has run exactly once, on the handler's result and
-- in the caller's round, unless the lifetime of the call has expired; then it has not run.
pub publish_async_query-run_callback :
    (u : UserCode) (i : QueryInvoker) (c k : ℕ) (ov : Option ℕ) (f : ℕ → ℕ) (w : World)
    → let q = i.async_query in
      let r = w.mono_ref q.handler in
      let x = chosen_executor (w.component c) ov in
      let y = sender_executor q w in
      let w0 = publish_async_query c r.msg k ov w in
      r.kind ≡ Mono.async
      → r.component ≡ q.owning_component
      → w.alive c ≡ true
      → find r.msg (w.component c).async_handlers ≡ none
      → receivers w.broker r.msg ≡ []
      → is_cached w0.broker r ≡ false
      → Answers u k f
      → x ≢ y
      → w.executor x ≡ idle
      → w.executor y ≡ idle
      → Delivers u i x y (f i.arguments) w0
publish_async_query-run_callback u i c k ov f w kind own live new alone miss a n ex ey =
    let q = i.async_query in
    let r = w.mono_ref q.handler in
    let w0 = publish_async_query c r.msg k ov w in
    let x = chosen_executor (w.component c) ov in
    let (refs, executors) = publish_async_query-kept c r.msg k ov w new in
    let ref : w0.mono_ref q.handler ≡ r = ap (λ g. g q.handler) refs in
    let home : sender_executor q w0 ≡ sender_executor q w =
      publish_async_query-default c q.owning_component r.msg k ov w new in
    let (found, at, place) = publish_async_query-lookup c k ov w r kind live new miss in
    subst (λ y. Delivers u i x y (f i.arguments) w0) home
      (call_Delivers u i w.next_handler c x k f w0 (ap (is_cached w0.broker) ref ∙ miss)
        (ap (λ z. (Mono.lookup (components w0) w0.broker z).0) ref
          ∙ found
          ∙ ap (λ l. if no_receiver l then some w.next_handler else none) alone)
        (ap (λ z. receivers w0.broker z.msg) ref ∙ listed_alone c r.msg k ov w new alone)
        (ap (λ z. z.component) ref ∙ own)
        (ap (λ z. executor_for (w0.component c) z.msg) ref ∙ place) at a (λ e. n (e ∙ home))
        (ap (λ g. g x) executors ∙ ex)
        (ap (λ g. g (sender_executor q w0)) executors ∙ ap w.executor home ∙ ey))
