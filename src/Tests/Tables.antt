-- ===== src/Tests/Tables.antt =====
-- The broker at work, as in test/test_broker.cpp.
use minicomps.Prelude.{
  ℕ, ◌≡◌, refl, Bool, true, false, Option, none, some, List, [], ◌∷◌, ◌++◌, any, if◌then◌else◌,
}
use minicomps.Prelude
use minicomps.Broker
use minicomps.Broker.Handles
use minicomps.Broker.{Broker, associate, lookup, lock, disassociate_everything, empty}
use minicomps.Broker.Table.{receivers}
use minicomps.Broker.Contract.{view, view_result, execute, run-execute}
use minicomps.Broker.Handles.{
  Call, associates, disassociates, invalidates, looks_up, run, touches, IsFresh, lock-run,
  run-IsFresh,
}

-- Two components listen to message 7, one to message 8.
abbrev history : List Call
history = associates 7 1 ∷ associates 7 2 ∷ associates 8 1 ∷ []

abbrev busy : Broker
busy = record {
  active_lookups =
      (7, record { version = 1; items = 1 ∷ 2 ∷ [] })
      ∷ (8, record { version = 2; items = 1 ∷ [] })
      ∷ [];
  next_version = 3;
}

run-history : run history empty ≡ some busy
unfolding run Handles.step associate Broker.store Prelude.find Prelude.put
run-history = refl

abbrev nobody : ℕ → Bool
nobody c = false

abbrev all_alive : ℕ → Bool
all_alive c = true

busy-IsFresh : IsFresh busy
busy-IsFresh = run-IsFresh history run-history

-- Message 9 was never named: the last call aborts.
abbrev aborting : List Call
aborting = disassociates all_alive 7 1 ∷ looks_up 6 ∷ disassociates all_alive 9 1 ∷ []

run-execute_example : view_result (run aborting busy) ≡ execute aborting (view busy)
run-execute_example = run-execute aborting busy

-- Looking up message 7, then calls for message 8, then one for message 7.
abbrev later : List Call
later = invalidates 8 ∷ looks_up 7 ∷ associates 7 3 ∷ []

abbrev latest : Broker
latest = record {
  active_lookups =
      (7, record { version = 4; items = 1 ∷ 2 ∷ 3 ∷ [] })
      ∷ (8, record { version = 3; items = 1 ∷ [] })
      ∷ [];
  next_version = 5;
}

run-later : run later (lookup busy 7).1 ≡ some latest
unfolding run Handles.step associate lookup Broker.invalidate Broker.store Prelude.find Prelude.put
run-later = refl

lock-run_example :
    lock latest (lookup busy 7).0
    ≡ (if any (touches 7) later then none else some (receivers busy 7))
lock-run_example = lock-run busy 7 later busy-IsFresh run-later
