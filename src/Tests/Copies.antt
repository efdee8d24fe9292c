-- ===== src/Tests/Copies.antt =====
-- Component 1 calls the interface query 0 of component 2 through its copy 4.
use minicomps.Prelude.{
  ℕ, ◌+◌, ◌≡◌, refl, sym, some, none, [], ◌∷◌, ◌++◌, ok, pure, modify, ◌>>◌, if◌then◌else◌, arith,
  append-nil,
}
use minicomps.Component
use minicomps.Component.{locked_request, locked_response}
use minicomps.Callback.{user, code, wrapped}
use minicomps.Executor.{clear_back_buffer}
use minicomps.World.{World, IfQuery, async, volatile, run_sync, expired_lifetime, locked, unlocked}
use minicomps.World.Effects.{with_log}
use minicomps.Query.Result.{run_callback}
use minicomps.Query.Sync.Bracket.{depth, lock_component-depth}
use minicomps.Query.Interface.{copy_query}
use minicomps.Query.Interface.Shared.{set_query, set_handler, unset}
use minicomps.Query.Interface.AsyncQuery
use minicomps.Query.Interface.AsyncQuery.{prepend_filter}
use minicomps.Query.Interface.VolatileQuery
use minicomps.Query.Interface.Copies.{IsCopy, publish_member, calls_directly}
use minicomps.Query.Interface.Call.{execute, call_locking}
use minicomps.Query.Interface.Call.RoundTrip.{data_of, with_copy, publish_member-run_callback}
use minicomps.Query.Interface.Call.Filtered.{prepend_filter-run_if_request}
use minicomps.Query.Interface.Call.Bracket.{
  heard_call, heard_response, entered, call_locking-entered,
}
use minicomps.Query.Loop
use minicomps.Query.Loop.{on_executor}
use minicomps.Query.Loop.Exchange.{result_of}
use minicomps.Tests.Worlds.{start, quiet}
use minicomps.Tests.Journeys.{successor, successor-Answers}

-- Every query is of one class, and component 1 is at work.
abbrev offering : IfQuery → World
offering q = record start { current_component = some 1; if_query = λ i. q }

abbrev async_offering : World
async_offering = offering (AsyncQuery.new 0)

publish_member-run_callback_example :
    (q : IfQuery) × (copy_query (publish_member async 0 (code 3) 2 2 async_offering) 0 ≡ some q)
    × (w : World) × (w.lifetimes ≡ async_offering.lifetimes)
    × ((execute successor 4 (user 9) none 20
            >> Loop.execute successor 2
            >> Loop.execute successor 1)
          (with_copy 4 0 3 2 2 q async_offering)
        ≡ ((if expired_lifetime async_offering none
                then pure tt
                else run_callback successor (user 9) 21)
              >> modify (on_executor 1 clear_back_buffer))
            w)
unfolding AsyncQuery.new unset Component.new
publish_member-run_callback_example =
    publish_member-run_callback successor 4 0 2 2 1 3 (user 9) none 20 (λ a. a + 1) async_offering
      refl (λ e. omega (arith, e)) refl refl refl successor-Answers (λ e. omega (arith, e)) refl
      refl

abbrev own_copy : World
own_copy = with_copy 4 0 3 2 2 (AsyncQuery.proxy async_offering 0 1 2 2) async_offering

own_copy-IsCopy : IsCopy async own_copy 0 2 2 1 (own_copy.if_query 4)
unfolding AsyncQuery.proxy AsyncQuery.new unset set_query publish_member AsyncQuery.publish
    set_handler Component.new calls_directly
own_copy-IsCopy = record {
  kind = refl;
  linked = refl;
  component = refl;
  executor = refl;
  sender = refl;
  direct = refl;
  handler = refl;
  exists = refl;
}

prepend_filter-run_if_request_example :
    (w : World) × ((w.if_query 0).handler ≡ some (wrapped 8 (code 3)))
    × (depth 2 w ≡ depth 2 own_copy)
    × ((execute quiet 4 (user 9) none 20 >> prepend_filter 8 4 >> Loop.execute quiet 2) own_copy
        ≡ (quiet.if_async_filter 8 20
                (result_of
                  (own_copy.if_query 4).name
                  (data_of quiet 4 0 2 2 1 (user 9) none 20 own_copy))
                (code 3)
              >> modify (on_executor 2 clear_back_buffer))
            w)
unfolding AsyncQuery.proxy AsyncQuery.new unset set_query publish_member AsyncQuery.publish
    set_handler Component.new
prepend_filter-run_if_request_example =
    prepend_filter-run_if_request quiet 8 4 0 2 2 1 (code 3) (user 9) none 20 own_copy
      own_copy-IsCopy refl refl refl (λ e. omega (arith, e)) refl

-- The copy of a volatile query, whose answers the client passes on as they are.
abbrev volatile_copy : World
volatile_copy =
    set_query 4 (VolatileQuery.proxy (offering (VolatileQuery.new 0)) 0 1 2 (some 2))
      (publish_member volatile 0 (code 3) 2 2 (offering (VolatileQuery.new 0)))

volatile_copy-IsCopy : IsCopy volatile volatile_copy 0 2 2 1 (volatile_copy.if_query 4)
unfolding VolatileQuery.proxy VolatileQuery.new unset set_query publish_member VolatileQuery.publish
    set_handler Component.new calls_directly
volatile_copy-IsCopy = record {
  kind = refl;
  linked = refl;
  component = refl;
  executor = refl;
  sender = refl;
  direct = refl;
  handler = refl;
  exists = refl;
}

abbrev name_of_copy : ℕ
name_of_copy = (volatile_copy.if_query 4).name

call_locking-entered_example :
    (w : World) × (call_locking quiet 4 20 pure volatile_copy ≡ ok 20 w)
    × (depth 2 w ≡ depth 2 volatile_copy)
    × (w.log
        ≡ volatile_copy.log
          ++ heard_call 1 2 name_of_copy locked_request volatile_copy
          ++ locked 2 ∷ []
          ++ unlocked 2 ∷ heard_response 1 2 name_of_copy locked_response volatile_copy)
unfolding set_query publish_member VolatileQuery.publish set_handler Component.new run_sync
call_locking-entered_example =
    call_locking-entered quiet volatile 4 0 2 2 1 20 20 20 (code 3) pure [] volatile_copy
      (entered 1 2 name_of_copy volatile_copy) (entered 1 2 name_of_copy volatile_copy)
      volatile_copy-IsCopy refl (λ e. omega (arith, e)) refl refl
      (lock_component-depth 2
        (with_log volatile_copy (heard_call 1 2 name_of_copy locked_request volatile_copy)))
      (sym (append-nil (entered 1 2 name_of_copy volatile_copy).log))

-- The copy of a volatile query that is handled on the client's executor.
abbrev near_copy : World
near_copy =
    set_query 4 (VolatileQuery.proxy (offering (VolatileQuery.new 0)) 0 1 2 (some 1))
      (publish_member volatile 0 (code 3) 2 1 (offering (VolatileQuery.new 0)))

abbrev name_of_near : ℕ
name_of_near = (near_copy.if_query 4).name
