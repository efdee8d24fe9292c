-- ===== src/Query/Interface/Reference/Called.antt =====
-- From the look-up of an interface to the answer of a call of one of its queries: interface_ref.h,
-- if_async_query.h, callback.h and executor.h together.
use minicomps.Prelude.{
  ◌==◌, ℕ, ◌<◌, ◌≡◌, ◌≢◌, refl, sym, ap, ◌∙◌, subst, true, false, Option, some, List, [], ◌∷◌, All,
  Pairs, ok, pure, modify, ◌>>◌, if◌then◌else◌, ◌==◌,
}
use minicomps.Broker.Table.{receivers}
use minicomps.Component.{lookup_interface}
use minicomps.Callback.{promise, code}
use minicomps.Executor.{idle, clear_back_buffer}
use minicomps.Lifetime
use minicomps.Lifetime.{Lifetimes}
use minicomps.World.{World, UserCode, async}
use minicomps.Query.Result.{run_callback}
use minicomps.Query.Interface.Shared.{lock_weak}
use minicomps.Query.Interface.Copies.{IsCopy, calls_directly}
use minicomps.Query.Interface.Copies.Lifetimes.{kept_lifetime}
use minicomps.Query.Interface.Call.{run_coroutine}
use minicomps.Query.Interface.Call.RoundTrip.{executor_of, execute-copy}
use minicomps.Query.Interface.Reference.{lookup}
use minicomps.Query.Interface.Reference.Proxies.{IsOffered, Mirrors}
use minicomps.Query.Interface.Reference.Lookup.{is_cached, lookup-Resolves}
use minicomps.Query.Interface.Reference.Replaced.{IsKnown, surviving-handler}
use minicomps.Query.Loop
use minicomps.Query.Loop.{on_executor}
use minicomps.Query.Loop.Exchange.{Answers}

first_pair :
    (R : ℕ → ℕ → Type 0) (j : ℕ) (js qs : List ℕ)
    → Pairs R (j ∷ js) qs
    → (q : ℕ) × (qs' : List ℕ) × (qs ≡ q ∷ qs') × R j q
first_pair R j js [] r = elim r [ ]
first_pair R j js (q ∷ qs) (r, rs) = (q, qs, refl, r)

some_injective : {a b : ℕ} → some a ≡ some b → a ≡ b
some_injective e = cc

-- A copy of an asynchronous query, in a later state with the same components.
Mirrors-IsCopy :
    (w v : World) (s j q x : ℕ) (life : Option ℕ) (m : Mirrors w s life v.if_query j q)
    → (w.if_query j).kind ≡ async
    → lock_weak w.executor_alive (w.if_query j).handling_executor ≡ some x
    → v.component ≡ w.component
    → IsCopy async v j m.component x s (v.if_query q)
Mirrors-IsCopy w v s j q x life m k hx same =
    let c = m.copied in
    let there : m.executor ≡ x = some_injective (sym m.works ∙ hx) in
    record {
      kind = c.kind ∙ k;
      linked = c.linked;
      component = c.component;
      executor = c.executor ∙ ap some there;
      sender = c.sender;
      direct =
          c.direct
          ∙ ap
              (λ z.
                calls_directly z (w.component m.component)
                  (m.executor == (w.component s).default_executor))
              k
          ∙ ap
              (λ z.
                calls_directly async (w.component m.component)
                  (z == (w.component s).default_executor))
              there
          ∙ ap (λ z. calls_directly async (z m.component) (x == (z s).default_executor)) (sym same);
      handler = c.handler;
      exists = c.exists;
    }

-- What a call and one round of the two executors amount to in the state `v` with the lifetimes `ls`,
-- when the lifetime of the call is `life`.
abbrev pub Called :
    UserCode → (q arguments p x y result : ℕ) → Option ℕ → Lifetimes → World → Type 0
Called u q arguments p x y result life ls v =
    (w' : World) × (w'.lifetimes ≡ ls)
    × ((run_coroutine u q arguments p >> Loop.execute u x >> Loop.execute u y) v
        ≡ ((if Lifetime.expired ls life then pure tt else u.promise p result)
              >> modify (on_executor y clear_back_buffer))
            w')

run_coroutine-Called :
    (u : UserCode) (q j c x s k arguments p : ℕ) (f : ℕ → ℕ) (life : Option ℕ) (v : World)
    → IsCopy async v j c x s (v.if_query q)
    → (v.if_query q).sending_lifetime ≡ life
    → (v.if_query j).handler ≡ some (code k)
    → Answers u k f
    → x ≢ executor_of s v
    → v.executor x ≡ idle
    → v.executor (executor_of s v) ≡ idle
    → Called u q arguments p x (executor_of s v) (f arguments) life v.lifetimes v
unfolding run_coroutine run_callback
run_coroutine-Called u q j c x s k arguments p f life v copy carries h a n ex ey =
    let (w', same, ran) =
      execute-copy u q j c x s k (promise p) life arguments f v copy h a n ex ey in
    (w', same, rw carries ran)

-- The same reference and interface as in `lookup-Resolves`, where the first query of the interface is an
-- asynchronous one whose handler reports at once, on an executor that is idle and not the one of the
-- reference's owner, which is idle too. After the look-up, a call of the copy of that query through a
-- coroutine, and one round of each executor, the promise of the coroutine has got the handler's result
-- exactly once, unless the lifetime of the reference has expired; then it has got nothing.
pub lookup-Called :
    (u : UserCode) (i c implementation j x k arguments p : ℕ) (js : List ℕ) (f : ℕ → ℕ) (w : World)
    → is_cached w i ≡ false
    → receivers w.broker (w.interface_ref i).msg ≡ c ∷ []
    → w.alive c ≡ true
    → lookup_interface (w.component c) (w.interface_ref i).msg ≡ some implementation
    → w.interface implementation ≡ j ∷ js
    → All (λ q. IsOffered w q × (q < w.next_if_query)) (j ∷ js)
    → IsKnown w.next_if_query (w.interface_ref i).local_interface_proxy
    → (w.if_query j).kind ≡ async
    → (w.if_query j).handler ≡ some (code k)
    → lock_weak w.executor_alive (w.if_query j).handling_executor ≡ some x
    → Answers u k f
    → x ≢ executor_of (w.interface_ref i).owning_component w
    → w.executor x ≡ idle
    → w.executor (executor_of (w.interface_ref i).owning_component w) ≡ idle
    → (q : ℕ) × (qs : List ℕ) × (v : World) × (lookup i w ≡ ok (some (q ∷ qs)) v)
      × Called u q arguments p x
          (executor_of (w.interface_ref i).owning_component w)
          (f arguments)
          (w.interface_ref i).lifetime
          w.lifetimes
          v
lookup-Called u i c impl j x k arguments p js f w n rs al li e os known kind h hx a nx ex ey =
    let s = (w.interface_ref i).owning_component in
    let life = (w.interface_ref i).lifetime in
    let offered = subst (All (λ q. IsOffered w q × (q < w.next_if_query))) (sym e) os in
    let (all, v, found, r) = lookup-Resolves i c impl w n rs al li offered known in
    let (q, qs, shape, m) =
      first_pair (Mirrors w s life v.if_query) j js all
        (subst (λ ps. Pairs (Mirrors w s life v.if_query) ps all) e r.copies) in
    let home : executor_of s v ≡ executor_of s w = ap (λ z. (z s).default_executor) r.components in
    let called =
      run_coroutine-Called u q j m.component x s k arguments p f life v
        (Mirrors-IsCopy w v s j q x life m kind hx r.components)
        (m.lifetime ∙ ap (λ z. kept_lifetime z life) kind)
        (ap (λ z. z.handler) (r.kept j os.0.1)
          ∙ surviving-handler (w.interface_ref i).local_interface_proxy w.if_query j
          ∙ h)
        a (λ z. nx (z ∙ home)) (ap (λ g. g x) r.executors ∙ ex)
        (ap (λ g. g (executor_of s v)) r.executors ∙ ap w.executor home ∙ ey) in
    (
      q,
      qs,
      v,
      found ∙ ap (λ z. ok (some z) v) shape,
      subst (λ y. Called u q arguments p x y (f arguments) life w.lifetimes v) home
          (subst (λ ls. Called u q arguments p x (executor_of s v) (f arguments) life ls v)
            r.lifetimes called),
    )
