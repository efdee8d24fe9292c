-- ===== src/Base/Publish/Reached.antt =====
-- What a sender finds of a query that component_base.h has published.
use minicomps.Prelude.{
  ℕ, ◌≡◌, refl, ap, ◌∙◌, Bool, true, false, Option, none, some, List, [], ◌∷◌, ◌++◌, if◌then◌else◌,
  find, find-put, ==_self,
}
use minicomps.Broker.{Broker, associate}
use minicomps.Broker.Table.{receivers, receivers-associate}
use minicomps.Component.{
  Component, lookup_async_handler, lookup_sync_handler, lookup_executor_override,
}
use minicomps.Callback.{code}
use minicomps.World.{World, components, set_component}
use minicomps.Ref.Mono
use minicomps.Ref.Mono.{MonoRef, Kind, Components, lookup_handler, async, sync, executor_for}
use minicomps.Ref.Mono.Target.{target, only_handler, is_cached, lookup-target}
use minicomps.Base.Publish.{
  publish_async_query, publish_sync_query, chosen_executor, associate_with, new_handler,
  drop_handler, set_override, set_async_handler, set_sync_handler, add_dependency_info,
}

-- No message of a list with a receiver in it, and one more behind it, has a handler.
abbrev pub no_receiver : List ℕ → Bool
no_receiver [] = true
no_receiver (c ∷ cs) = false

only_handler-append :
    (env : Components) (kind : Kind) (msg c p : ℕ) (xs : List ℕ)
    → env.alive c ≡ true
    → lookup_handler kind (env.component c) msg ≡ some p
    → only_handler env kind msg (xs ++ c ∷ []) ≡ (if no_receiver xs then some p else none)
only_handler-append env kind msg c p [] a h = rw (a, h) refl
only_handler-append env kind msg c p (x ∷ []) a h = refl
only_handler-append env kind msg c p (x ∷ y ∷ xs) a h = refl

-- A sender whose reference is not cached, in a world where `c` has just been associated.
found :
    (w : World) (b : Broker) (r : MonoRef) (c p : ℕ)
    → w.broker ≡ associate b r.msg c
    → w.alive c ≡ true
    → lookup_handler r.kind (w.component c) r.msg ≡ some p
    → is_cached w.broker r ≡ false
    → (Mono.lookup (components w) w.broker r).0
      ≡ (if no_receiver (receivers b r.msg) then some p else none)
found w b r c p e a h n =
    lookup-target (components w) w.broker r n
    ∙ ap (λ d. target (components w) d r.kind r.msg) e
    ∙ unfold target in
      ap (only_handler (components w) r.kind r.msg)
        (receivers-associate b r.msg c r.msg ∙ rw (==_self r.msg) refl)
      ∙ only_handler-append (components w) r.kind r.msg c p (receivers b r.msg) a h

pub publish_async_query-fields :
    (c msg k : ℕ) (ov : Option ℕ) (w : World)
    → find msg (w.component c).async_handlers ≡ none
    → let w' = publish_async_query c msg k ov w in
      (w'.broker ≡ associate w.broker msg c)
      × (w'.alive ≡ w.alive)
      × (w'.handler w.next_handler ≡ some (code k))
      × (lookup_async_handler (w'.component c) msg ≡ some w.next_handler)
      × (lookup_executor_override (w'.component c) msg ≡ ov)
      × ((w'.component c).default_executor ≡ (w.component c).default_executor)
unfolding publish_async_query associate_with new_handler drop_handler set_override set_async_handler
    add_dependency_info set_component lookup_async_handler lookup_executor_override
publish_async_query-fields c msg k ov w h = (
  rw h refl,
  rw h refl,
  rw (h, ==_self w.next_handler) refl,
  rw (h, ==_self c, find-put msg msg w.next_handler (w.component c).async_handlers, ==_self msg)
      refl,
  rw
      (
        lookup_executor_override,
        h,
        ==_self c,
        find-put msg msg ov (w.component c).async_executor_overrides,
        ==_self msg,
      )
      refl,
  rw (h, ==_self c) refl,
)

executor_for-chosen_executor :
    (k k' : Component) (msg : ℕ) (ov : Option ℕ)
    → lookup_executor_override k msg ≡ ov
    → k.default_executor ≡ k'.default_executor
    → executor_for k msg ≡ chosen_executor k' ov
unfolding executor_for
executor_for-chosen_executor k k' msg none h e = rw (executor_for, h) e
executor_for-chosen_executor k k' msg (some x) h e = rw (executor_for, h) refl

-- A live component publishes an asynchronous query that it has no handler for yet. If the message had
-- no receiver, any reference to it that holds nothing cached then finds the published handler, to run on
-- the override or else on the component's executor; if the message had one already, it finds nothing.
pub publish_async_query-lookup :
    (c k : ℕ) (ov : Option ℕ) (w : World) (r : MonoRef)
    → r.kind ≡ async
    → w.alive c ≡ true
    → find r.msg (w.component c).async_handlers ≡ none
    → is_cached (publish_async_query c r.msg k ov w).broker r ≡ false
    → let w' = publish_async_query c r.msg k ov w in
      ((Mono.lookup (components w') w'.broker r).0
        ≡ (if no_receiver (receivers w.broker r.msg) then some w.next_handler else none))
      × (w'.handler w.next_handler ≡ some (code k))
      × (executor_for (w'.component c) r.msg ≡ chosen_executor (w.component c) ov)
publish_async_query-lookup c k ov w r e a h n =
    let (b, l, p, f, x, d) = publish_async_query-fields c r.msg k ov w h in
    (
      found (publish_async_query c r.msg k ov w) w.broker r c w.next_handler b (ap (λ g. g c) l ∙ a)
          (ap (λ t. lookup_handler t ((publish_async_query c r.msg k ov w).component c) r.msg) e
            ∙ (unfold lookup_handler in f))
          n,
      p,
      executor_for-chosen_executor ((publish_async_query c r.msg k ov w).component c)
          (w.component c) r.msg ov x d,
    )

pub publish_sync_query-fields :
    (c msg k : ℕ) (w : World)
    → find msg (w.component c).sync_handlers ≡ none
    → let w' = publish_sync_query c msg k w in
      (w'.broker ≡ associate w.broker msg c)
      × (w'.alive ≡ w.alive)
      × (w'.handler w.next_handler ≡ some (code k))
      × (lookup_sync_handler (w'.component c) msg ≡ some w.next_handler)
unfolding publish_sync_query associate_with new_handler drop_handler set_sync_handler
    add_dependency_info set_component lookup_sync_handler
publish_sync_query-fields c msg k w h = (
  rw h refl,
  rw h refl,
  rw (h, ==_self w.next_handler) refl,
  rw (h, ==_self c, find-put msg msg w.next_handler (w.component c).sync_handlers, ==_self msg)
      refl,
)

-- The same for a synchronous query: the reference finds the published handler if the message had no
-- receiver, and nothing if it had one already.
pub publish_sync_query-lookup :
    (c k : ℕ) (w : World) (r : MonoRef)
    → r.kind ≡ sync
    → w.alive c ≡ true
    → find r.msg (w.component c).sync_handlers ≡ none
    → is_cached (publish_sync_query c r.msg k w).broker r ≡ false
    → let w' = publish_sync_query c r.msg k w in
      ((Mono.lookup (components w') w'.broker r).0
        ≡ (if no_receiver (receivers w.broker r.msg) then some w.next_handler else none))
      × (w'.handler w.next_handler ≡ some (code k))
publish_sync_query-lookup c k w r e a h n =
    let (b, l, p, f) = publish_sync_query-fields c r.msg k w h in
    (
      found (publish_sync_query c r.msg k w) w.broker r c w.next_handler b (ap (λ g. g c) l ∙ a)
          (ap (λ t. lookup_handler t ((publish_sync_query c r.msg k w).component c) r.msg) e
            ∙ (unfold lookup_handler in f))
          n,
      p,
    )
