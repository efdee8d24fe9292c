-- ===== src/Tests/Publishing.antt =====
-- Components publish handlers for message 7, and components 1 and 9 refer to it.
use minicomps.Prelude
use minicomps.Prelude.{
  ℕ, ◌≡◌, refl, sym, Bool, true, false, Option, none, some, List, [], ◌∷◌, ok, abort, undefined,
  Outcome, modify, ◌>>◌, map, keep, any, ◌||◌, if◌then◌else◌, arith, update,
}
use minicomps.Broker
use minicomps.Broker.{Broker, Handle}
use minicomps.Broker.Table.{receivers}
use minicomps.Broker.Handles.{associates, run, touches, IsFresh, Issued, run-IsFresh, step}
use minicomps.Callback.{code, filtered}
use minicomps.Ref.Mono
use minicomps.Ref.Mono.{MonoRef, Components, executor_for}
use minicomps.Ref.Mono.Target.{is_cached}
use minicomps.Ref.Poly
use minicomps.Ref.Poly.{PolyRef, collect, is_empty}
use minicomps.Ref.Poly.Cache.{lookup-handlers}
use minicomps.World.{World, components}
use minicomps.Base.Publish.{prepend_async_query_filter}
use minicomps.Base.Publish.Filter.{prepend_async_query_filter-lookup}
use minicomps.Tests.Worlds.{start}

-- Component 2 has published handler object 0 for message 7.
abbrev offering : World
offering = record start {
  broker = record {
    active_lookups = (7, record { version = 0; items = 2 ∷ [] }) ∷ [];
    next_version = 1;
  };
  component = λ c. record (start.component c) { async_handlers = (7, 0) ∷ []; published = true };
  handler = update start.handler 0 (some (code 3));
  next_handler = 1;
}

prepend_async_query_filter-lookup_example :
    (w : World) × (prepend_async_query_filter 2 7 4 offering ≡ ok tt w)
    × ((g : Handle) → g.msg ≡ 7 → Issued g offering.broker → Broker.expired w.broker g ≡ true)
    × (is_cached w.broker (Mono.new Mono.async 7 1) ≡ false
        → (Mono.lookup (components w) w.broker (Mono.new Mono.async 7 1)).0 ≡ some 1)
    × (w.handler 1 ≡ some (filtered 4 0 (code 3)))
    × (w.handler 0 ≡ some (code 3))
unfolding Mono.new Prelude.find receivers
prepend_async_query_filter-lookup_example =
    prepend_async_query_filter-lookup 2 4 0 (code 3) offering (Mono.new Mono.async 7 1) refl refl
      refl refl refl (omega arith)

abbrev subscriber : PolyRef
subscriber = Poly.new 7 9

-- The history of that broker, and one more receiver.
offering-IsFresh : IsFresh offering.broker
unfolding run step Broker.associate Broker.store Prelude.find Prelude.put
offering-IsFresh = run-IsFresh (associates 7 2 ∷ []) refl

abbrev joined : Broker
joined = record {
  active_lookups = (7, record { version = 1; items = 2 ∷ 3 ∷ [] }) ∷ [];
  next_version = 2;
}

run-joined :
    run (associates 7 3 ∷ []) (Poly.lookup (components offering) offering.broker subscriber).1
    ≡ some joined
unfolding Poly.new Poly.lookup Broker.lookup run step Broker.associate Broker.store Prelude.find
    Prelude.put Mono.expired Broker.lock collect
run-joined = refl

lookup-handlers_example :
    (Poly.lookup
      (components offering)
      joined
      (Poly.lookup (components offering) offering.broker subscriber).0).0.receiver_handlers
    ≡ (if any (touches 7) (associates 7 3 ∷ [])
          || is_empty (collect (components offering) subscriber (receivers offering.broker 7))
        then collect (components offering) subscriber (receivers joined 7)
        else collect (components offering) subscriber (receivers offering.broker 7))
unfolding Poly.new
lookup-handlers_example =
    lookup-handlers (components offering) (components offering) offering.broker subscriber
      (associates 7 3 ∷ []) offering-IsFresh refl run-joined
