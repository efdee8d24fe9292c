-- ===== src/Tools/Measure.antt =====
-- `measure` and `measure_with_allocs` of include/minicomps/testing.h. The clock and the counter of
-- executor.h are read from the state.
pub mod Reports
use minicomps.Prelude.{
  ℕ, ◌-◌, ◌/◌, Option, none, some, Cmd, Outcome, ok, abort, undefined, pure, get, ◌>>=◌, ◌>>◌,
}
use minicomps.Tools.Int.{ℤ, to_int, minus_int}
use minicomps.Tools.Allocations
use minicomps.Tools.Allocations.{AllocSystem}

-- `clock` is the reading of the steady clock in nanoseconds, `num_lock_failures` the bits of the
-- `atomic_int`, whose increment wraps around.
pub record Machine : Type 0 where
  pub allocations : AllocSystem
  pub clock : ℕ
  pub num_lock_failures : ℕ

abbrev pub in_allocations : {A : Type 0} → Machine → Outcome AllocSystem A → Outcome Machine A
in_allocations m (ok a s) = ok a (record m { allocations = s })
in_allocations m abort = abort
in_allocations m undefined = undefined

unfoldable pub on_allocations : {A : Type 0} → Cmd AllocSystem A → Cmd Machine A
on_allocations c m = in_allocations m (c m.allocations)

-- `duration_cast<milliseconds>`, converted to `int`.
unfoldable pub milliseconds : (start end : ℕ) → ℤ
milliseconds start end = to_int ((end - start) / 1000000)

-- Its output is left out.
unfoldable pub measure : Cmd Machine (Unit {0}) → Cmd Machine ℤ
measure callback =
    get >>= λ start. (callback >> (get >>= λ end. pure (milliseconds start.clock end.clock)))

-- What `measure_with_allocs` prints; it returns the duration. The allocations are an `int` that is not
-- negative.
pub record Report : Type 0 where
  pub duration : ℤ
  pub allocs : ℕ
  pub executor_lock_failures : ℤ

unfoldable pub total_allocation_count : ℕ → Machine → ℕ
total_allocation_count c m = (m.allocations.counter c).total_allocation_count

-- The counter is at `c`. The subtraction of the failed locks may overflow.
unfoldable pub report_of : ℕ → (start end : Machine) → Cmd Machine Report
report_of c start end =
    elim (minus_int (to_int end.num_lock_failures) (to_int start.num_lock_failures)) [
      | none ↦ λ m. undefined
      | some failures ↦ pure (record {
        duration = milliseconds start.clock end.clock;
        allocs = total_allocation_count c end;
        executor_lock_failures = failures;
      })
    ]

-- The constructor and the destructor of the counter make `inner` allocations and releases.
unfoldable pub measure_with_allocs : (inner c : ℕ) → Cmd Machine (Unit {0}) → Cmd Machine Report
measure_with_allocs inner c callback = do
  on_allocations (Allocations.construct inner c)
  start ← get
  callback
  end ← get
  report ← report_of c start end
  on_allocations (Allocations.destroy inner c)
  pure report
