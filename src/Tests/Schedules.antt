-- ===== src/Tests/Schedules.antt =====
-- Two threads enqueue on an executor, and one executes it.
use minicomps.Prelude.{ℕ, ◌+◌, false, length, ◌≡◌, refl, true, false, some, List, [], ◌∷◌, update}
use minicomps.Executor.{enqueue_work, swap_buffers}
use minicomps.Executor.Threads.{
  Producer, Runner, Mutex, Threads, Move, started, set_producer, try_lock, call_enqueue, produce,
  run_on, execute, step, run,
}
use minicomps.Executor.Threads.Order.{IsOrdered, run-IsOrdered}
use minicomps.Executor.Threads.Progress.{unfinished}
use minicomps.Executor.Threads.Round.{Drains}
use minicomps.Executor.Threads.Release.{Releases, run-Drains}
use minicomps.Executor.Threads.Inside.{producer_inside, runner_inside}
use minicomps.Executor.Threads.Exclusion.{run-inside}

abbrev nobody : ℕ → Producer ℕ
nobody i = Producer.absent

abbrev second : ℕ
second = 2

-- Thread 1 holds the mutex, thread 2 waits for it.
abbrev contended : List (Move ℕ)
contended = Move.calls 1 10 ∷ Move.calls 2 11 ∷ Move.produces 1 ∷ Move.produces 2 ∷ []

abbrev in_contention : Threads ℕ
in_contention = record started {
  mutex = Mutex.by_producer 1;
  num_lock_failures = 1;
  producer =
      update
        (update (update (update nobody 1 (Producer.trying 10)) 2 (Producer.trying 11)) 1
          (Producer.holding 10))
        2 (Producer.waiting 11);
}

run-in_contention : run contended started ≡ some in_contention
unfolding run step call_enqueue produce set_producer try_lock
run-in_contention = refl

run-inside_example :
    (producer_inside (in_contention.producer 2) ≡ true → 1 ≡ second)
    × (runner_inside in_contention.runner ≡ false)
run-inside_example = run-inside contended 1 2 run-in_contention refl

-- Thread 1 has enqueued its task, and the buffers have been swapped.
abbrev one_round : List (Move ℕ)
one_round =
    Move.calls 1 10
    ∷ Move.produces 1
    ∷ Move.produces 1
    ∷ Move.produces 1
    ∷ Move.runs
    ∷ Move.runs
    ∷ Move.runs
    ∷ []

abbrev swapped : Threads ℕ
swapped = record {
  executor = record { work_items = []; back_buffer = 10 ∷ [] };
  mutex = Mutex.by_runner;
  num_lock_failures = 0;
  producer =
      update
        (update (update (update nobody 1 (Producer.trying 10)) 1 (Producer.holding 10)) 1
          Producer.releasing)
        1 Producer.absent;
  runner = Runner.releasing;
  enqueued = 10 ∷ [];
  executed = [];
}

run-swapped : run one_round started ≡ some swapped
unfolding run step call_enqueue produce set_producer try_lock execute run_on enqueue_work
    swap_buffers
run-swapped = refl

run-IsOrdered_example : IsOrdered swapped
run-IsOrdered_example = run-IsOrdered one_round run-swapped

-- From the state in which thread 1 holds the mutex and thread 2 waits for it.
run-Drains_example :
    (r : Releases in_contention) × Drains (length (unfinished r.final) + 7) r.final.enqueued r.final
run-Drains_example = run-Drains contended run-in_contention
