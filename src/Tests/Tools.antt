-- ===== src/Tests/Tools.antt =====
-- A counter that watches two allocations and a release, and tests of two suites.
use minicomps.Prelude.{arith, ℕ, ◌≡◌, refl, none, List, [], ◌∷◌, ◌++◌, Cmd, ok, ◌>>◌, find, false}
use minicomps.Tools.Allocations.{AllocSystem, initial, contains, construct}
use minicomps.Tools.Int.{pos, negsuc, to_int}
use minicomps.Tools.Allocations.Counts.{
  Call, news, deletes, counts, run, allocations, live, HasRoomFor, construct-run,
}
use minicomps.Tools.Measure.{Machine, measure_with_allocs}
use minicomps.Tools.Measure.Reports.{program, measure_with_allocs-program}
use minicomps.Tools.Suites
use minicomps.Tools.Suites.{Test, run_tests, run_suites}
use minicomps.Tools.Suites.Order.{
  Registration, register_all, tests_of, listed, all_tests, IsAscending, run_suites-register_all,
}

abbrev history : List Call
history = news 1 100 8 ∷ counts 2 6 ∷ news 3 101 16 ∷ deletes 0 100 ∷ []

nobody_counts : HasRoomFor 2 initial
unfolding contains
nobody_counts c e = absurd (cc)

construct-run_example :
    (s : AllocSystem) × ((construct 1 5 >> run history) initial ≡ ok tt s)
    × ((s.counter 5).total_allocation_count ≡ allocations history)
    × ((p : ℕ) → find p (s.counter 5).active_allocations ≡ live p none history)
unfolding allocations
construct-run_example =
    construct-run 1 5 history initial (refl, (refl, (refl, (refl, tt)))) (omega arith) nobody_counts

history-allocations : allocations history ≡ 2
unfolding allocations
history-allocations = refl

-- Test 30 of suite 2, then tests 31 and 32 of suite 1.
abbrev registered : List Registration
registered =
    (2, record { name = 0; fun = 30 })
    ∷ (1, record { name = 0; fun = 31 })
    ∷ (1, record { name = 1; fun = 32 })
    ∷ []

abbrev record_call : ℕ → Cmd (List ℕ) (Unit {0})
record_call k called = ok tt (called ++ k ∷ [])

run_suites-register_all_example :
    let suites = (register_all registered Suites.initial).suites in
    (run_suites record_call suites [] ≡ run_tests record_call (all_tests suites) [])
    × IsAscending suites
    × ((n : ℕ) → listed n suites ≡ tests_of n registered)
run_suites-register_all_example = run_suites-register_all record_call registered []

tests_called :
    run_suites record_call (register_all registered Suites.initial).suites []
    ≡ ok tt (31 ∷ 32 ∷ 30 ∷ [])
unfolding register_all Suites.register Suites.with_suite Suites.add_test run_suites run_tests
tests_called = refl

-- The same history takes two seconds and a bit, and fails to lock three times.
abbrev machine : Machine
machine = record { allocations = initial; clock = 500; num_lock_failures = 4 }

duration-pos : to_int 2000 ≡ pos 2000
unfolding to_int
duration-pos = refl

-- An int of milliseconds ends after 24 days.
duration-negsuc : to_int 2147483648 ≡ negsuc 2147483647
unfolding to_int
duration-negsuc = refl

measure_with_allocs-program_example :
    (m : Machine) × (measure_with_allocs 1 5 (program history 2000999999 3) machine
      ≡ ok (record { duration = to_int 2000; allocs = 2; executor_lock_failures = pos 3 }) m)
    × (contains 5 m.allocations.active_counters ≡ false)
unfolding allocations
measure_with_allocs-program_example =
    measure_with_allocs-program 1 5 history 2000999999 3 machine (refl, (refl, (refl, (refl, tt))))
      (omega arith) nobody_counts (omega arith)
