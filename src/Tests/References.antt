-- ===== src/Tests/References.antt =====
-- A reference of component 9 to the handler of message 7.
use minicomps.Prelude
use minicomps.Prelude.{
  ℕ, ◌≡◌, refl, Bool, true, false, Option, none, some, List, [], ◌∷◌, any, if◌then◌else◌, arith,
  ltb, ◌==◌,
}
use minicomps.Broker
use minicomps.Broker.{Broker}
use minicomps.Broker.Table
use minicomps.Broker.Handles.{
  Call, associates, disassociates, looks_up, run, touches, IsFresh, run-IsFresh, step,
}
use minicomps.Component
use minicomps.Component.{Component}
use minicomps.Ref.Mono
use minicomps.Ref.Mono.{
  MonoRef, Components, async, lookup, resolve, resolve_receiver, lookup_handler, expired,
  executor_for,
}
use minicomps.Ref.Mono.Target.{target, lookup-target}
use minicomps.Ref.Mono.Cache.{lookup-run, lookup_twice_stale}

-- Every component has the handler 40 for message 7, on executor 3.
abbrev sample : ℕ → Component
sample c = record (Component.new "sample" 3 c) { async_handlers = (7, 40) ∷ [] }

abbrev env : Components
env = record { alive = λ c. true; component = sample }

abbrev all_alive : ℕ → Bool
all_alive c = true

abbrev one_receiver : Broker
one_receiver = record {
  active_lookups = (7, record { version = 0; items = 1 ∷ [] }) ∷ [];
  next_version = 1;
}

abbrev none_left : Broker
none_left = record {
  active_lookups = (7, record { version = 1; items = [] }) ∷ [];
  next_version = 2;
}

abbrev fresh : MonoRef
fresh = Mono.new async 7 9

run-one_receiver : run (associates 7 1 ∷ []) Broker.empty ≡ some one_receiver
unfolding run step Broker.associate Broker.store Prelude.find Prelude.put
run-one_receiver = refl

one_receiver-IsFresh : IsFresh one_receiver
one_receiver-IsFresh = run-IsFresh (associates 7 1 ∷ []) run-one_receiver

lookup-target_example : (lookup env one_receiver fresh).0 ≡ target env one_receiver async 7
unfolding Mono.new
lookup-target_example = lookup-target env one_receiver fresh refl

found : (lookup env one_receiver fresh).0 ≡ some 40
unfolding lookup resolve resolve_receiver lookup_handler expired executor_for Mono.new Component.new
    Component.lookup_async_handler Component.lookup_executor_override Broker.lookup Broker.lock
    Prelude.find
found = refl

-- The receiver leaves.
abbrev leaving : List Call
leaving = looks_up 7 ∷ disassociates all_alive 7 1 ∷ []

run-leaving : run leaving (lookup env one_receiver fresh).2 ≡ some none_left
unfolding lookup resolve resolve_receiver lookup_handler expired executor_for Mono.new Component.new
    Component.lookup_async_handler Component.lookup_executor_override Broker.lookup Broker.lock
    Prelude.find run step Broker.disassociate Broker.store Prelude.put
run-leaving = refl

lookup-run_example :
    (lookup env none_left (lookup env one_receiver fresh).1).0
    ≡ (if any (touches 7) leaving then target env none_left async 7 else some 40)
unfolding Mono.new
lookup-run_example =
    lookup-run env env one_receiver fresh 40 leaving one_receiver-IsFresh refl found run-leaving

-- The reference as it was tied to handler 40 before the receiver left.
abbrev tied : MonoRef
tied = record (Mono.new async 7 9) {
  handler = some 40;
  receivers = some (record { msg = 7; version = 0 });
  receiver = some 1;
  receiver_executor = some 3;
  same_executor = true;
}

lookup_twice_stale_example :
    ((lookup env none_left tied).0 ≡ none)
    × ((lookup env (lookup env none_left tied).2 (lookup env none_left tied).1).0 ≡ some 40)
unfolding Mono.new expired Broker.expired Broker.lock Prelude.find Table.receivers
lookup_twice_stale_example = lookup_twice_stale env none_left tied 40 refl refl tt
