-- ===== src/Tests/Interfaces.antt =====
-- Component 1 copies the interface query 0 of component 2; a registry creates component 2.
use minicomps.Prelude.{
  ◌+◌, ok, true, All, ◌<◌, arith, find, ℕ, ◌≡◌, refl, none, some, List, [], ◌∷◌, Cmd, modify, ◌>>=◌,
}
use minicomps.Callback.{code}
use minicomps.Component
use minicomps.Component.{lookup_interface}
use minicomps.Broker.Table.{receivers}
use minicomps.Query.Interface.Reference
use minicomps.Ref.Mono.{expired}
use minicomps.Query.Interface.Reference.Proxies.{IsOffered}
use minicomps.Query.Interface.Reference.Lookup.{Resolves, lookup-Resolves}
use minicomps.Query.Interface.Shared.{set_query, set_handler}
use minicomps.World.{World, async}
use minicomps.Query.Interface.Shared.{unset}
use minicomps.Query.Interface.AsyncQuery
use minicomps.Query.Interface.Copies.{publish_member}
use minicomps.Query.Interface.Reference.Called.{Called, lookup-Called}
use minicomps.Tests.Journeys.{successor, successor-Answers}
use minicomps.Base.Publish.{publish_async_query}
use minicomps.Registry
use minicomps.Registry.Left.{create_all, publish_all, destroy-create_all}
use minicomps.Tests.Worlds.{start}

abbrev client : World
client = record start { current_component = some 1 }

abbrev offering : World
offering = record client { if_query = λ i. AsyncQuery.new 0 }

abbrev creations : List (ℕ × Cmd World (Unit {0}))
creations = (2, modify (publish_async_query 2 7 3 none)) ∷ []

destroy-create_all_example :
    (create_all Registry.new creations >>= Registry.destroy) start ≡ publish_all creations start
destroy-create_all_example = destroy-create_all creations start

-- Component 2 implements message 9 by the queries 0 and 1, and component 1 has the reference 0 to it,
-- which still has an old proxy with the queries 5 and 6.
abbrev served : World
served =
    record (publish_member async 1 (code 4) 2 2 (publish_member async 0 (code 3) 2 2 offering)) {
      broker = record {
        active_lookups = (9, record { version = 0; items = 2 ∷ [] }) ∷ [];
        next_version = 1;
      };
      component = λ c. record (Component.new "sample" c c) { interfaces = (9, 5) ∷ [] };
      interface = λ n. 0 ∷ 1 ∷ [];
      interface_ref =
          λ i. record (Reference.new 9 1 none true) { local_interface_proxy = some (5 ∷ 6 ∷ []) };
      next_if_query = 7;
    }

served-IsOffered : All (λ q. IsOffered served q × (q < 7)) (0 ∷ 1 ∷ [])
unfolding publish_member AsyncQuery.publish set_handler set_query
served-IsOffered = (
  (
    record {
      handler = code 3;
      component = 2;
      executor = 2;
      handles = refl;
      lives = refl;
      works = refl;
    },
    omega arith,
  ),
  (
    (
      record {
        handler = code 4;
        component = 2;
        executor = 2;
        handles = refl;
        lives = refl;
        works = refl;
      },
      omega arith,
    ),
    tt,
  ),
)

lookup-Resolves_example :
    (qs : List ℕ) × (w : World) × (Reference.lookup 0 served ≡ ok (some qs) w)
    × Resolves served 0 1 none (some (5 ∷ 6 ∷ [])) (0 ∷ 1 ∷ []) qs w
unfolding Reference.new Component.new receivers lookup_interface find publish_member
    AsyncQuery.publish set_handler set_query expired
lookup-Resolves_example =
    lookup-Resolves 0 2 5 served refl refl refl refl served-IsOffered
      (omega arith, (omega arith, tt))

lookup-Called_example :
    (q : ℕ) × (qs : List ℕ) × (v : World) × (Reference.lookup 0 served ≡ ok (some (q ∷ qs)) v)
    × Called successor q 20 6 2 1 21 none served.lifetimes v
unfolding Reference.new Component.new receivers lookup_interface find publish_member
    AsyncQuery.publish set_handler set_query AsyncQuery.new unset expired
lookup-Called_example =
    lookup-Called successor 0 2 5 0 2 3 20 6 (1 ∷ []) (λ a. a + 1) served refl refl refl refl refl
      served-IsOffered (omega arith, (omega arith, tt)) refl refl refl successor-Answers
      (λ e. omega (arith, e)) refl refl
