-- ===== src/Tools/Measure/Reports.antt =====
-- What `measure_with_allocs` of testing.h reports, together with the counters of tools/testing.h.
use minicomps.Prelude.{
  ℕ, ◌+◌, ◌-◌, ◌/◌, ◌%◌, ◌≤◌, ◌<◌, some, ◌≡◌, refl, sym, ap, ◌∙◌, true, false, List, All, Cmd, ok,
  and_then, modify, ◌>>◌, arith, ==_self,
}
use minicomps.Tools.Allocations.Counts.{Call, run, spares, allocations, HasRoomFor, construct-run}
use minicomps.Tools.Allocations.{int_max, contains, insert_counter, erase_counter}
use minicomps.Tools.Int.{pos, to_int, minus_int, to_int-small, minus_int-pos}
use minicomps.Tools.Allocations.Reported.{
  construct-registered, destroy-registered, registered, cleared, contains-erase,
}
use minicomps.Tools.Measure.{
  Machine, on_allocations, milliseconds, total_allocation_count, report_of, measure_with_allocs,
}

-- A program that makes a history of allocations, takes some time, and fails to lock a number of times.
abbrev pub program : List Call → (nanoseconds failures : ℕ) → Cmd Machine (Unit {0})
program ks time failures = do
  on_allocations (run ks)
  modify (λ m. record m {
    clock = m.clock + time;
    num_lock_failures = (m.num_lock_failures + failures) % 4294967296;
  })

difference : (a b : ℕ) → (a + b) - a ≡ b
difference a b = omega arith

failures_between :
    (a b : ℕ)
    → a + b < 2147483648
    → minus_int (to_int ((a + b) % 4294967296)) (to_int a) ≡ some (pos b)
failures_between a b l =
    let bits : (a + b) % 4294967296 ≡ a + b = omega (arith, l) in
    rw (bits, to_int-small (a + b) l, to_int-small a (omega (arith, l))) (minus_int-pos a b l)

-- A program of which only other counters come and go is measured with a new counter. If no count of
-- allocations passes the largest `int` on the way, and neither do the failed locks since the program
-- started, the measurement ends normally and reports the milliseconds that the program took, rounded down
-- and converted to `int`, how many allocations it has made, and how often it failed to lock; the counter
-- is gone afterwards.
pub measure_with_allocs-program :
    (inner c : ℕ) (ks : List Call) (time failures : ℕ) (m : Machine)
    → All (λ k. spares c k ≡ true) ks
    → allocations ks ≤ int_max
    → HasRoomFor (allocations ks) m.allocations
    → m.num_lock_failures + failures ≤ int_max
    → (m' : Machine) × (measure_with_allocs inner c (program ks time failures) m
        ≡ ok
            (record {
              duration = to_int (time / 1000000);
              allocs = allocations ks;
              executor_lock_failures = pos failures;
            })
            m')
      × (contains c m'.allocations.active_counters ≡ false)
unfolding registered measure_with_allocs on_allocations report_of milliseconds
    total_allocation_count
measure_with_allocs-program inner c ks time failures m h l r f =
    let s1 =
      registered (insert_counter c m.allocations.active_counters) (cleared c m.allocations) in
    let made = construct-registered inner c m.allocations in
    let (s', e, count, blocks) = construct-run inner c ks m.allocations h l r in
    let ran : run ks s1 ≡ ok tt s' = sym (ap (λ o. and_then o (λ a. run ks)) made) ∙ e in
    (
      record m {
        allocations = registered (erase_counter c s'.active_counters) s';
        clock = m.clock + time;
        num_lock_failures = (m.num_lock_failures + failures) % 4294967296;
      },
      rw
          (
            made,
            ran,
            report_of,
            failures_between m.num_lock_failures failures (omega (arith, f)),
            destroy-registered inner c s',
            count,
            difference m.clock time,
          )
          refl,
      contains-erase c c s'.active_counters ∙ rw (==_self c) refl,
    )
