-- ===== src/Executor/Threads.antt =====
-- The threads that use one executor of include/minicomps/executor.h: any number of threads in
-- `enqueue_work`, and one in `execute`, which no two threads may call at once.
pub mod Order
pub mod Exclusion
pub mod Inside
pub mod Round
pub mod Progress
pub mod Release
use minicomps.Prelude.{ℕ, ◌+◌, Option, none, some, List, [], ◌∷◌, ◌++◌, ◌==◌, if◌then◌else◌, update}
use minicomps.Executor.{Executor, enqueue_work, swap_buffers, clear_back_buffer, idle}

-- Where a thread is in `enqueue_work` with its task: before `try_lock`, in `lock`, before the queue is
-- changed, and before `unlock`.
pub data Producer (T : Type 0) : Type 0 where
  absent : Producer T
  trying waiting holding : T → Producer T
  releasing : Producer T

-- Where the thread of `execute` is; `running` has the tasks that the loop has not reached.
pub data Runner (T : Type 0) : Type 0 where
  absent trying waiting holding releasing : Runner T
  running : List T → Runner T

-- `mutex_`
pub data Mutex : Type 0 where
  free by_runner : Mutex
  by_producer : ℕ → Mutex

-- `enqueued` and `executed` record the tasks in the order in which they entered the queue and ran.
-- `num_lock_failures` counts all failures, of which the `atomic_int` keeps the low 32 bits.
pub record Threads (T : Type 0) : Type 0 where
  pub executor : Executor T
  pub mutex : Mutex
  pub num_lock_failures : ℕ
  pub producer : ℕ → Producer T
  pub runner : Runner T
  pub enqueued : List T
  pub executed : List T

-- One step: a thread calls `enqueue_work`, or goes on in it; the runner calls `execute` or goes on.
pub data Move (T : Type 0) : Type 0 where
  calls : ℕ → T → Move T
  produces : ℕ → Move T
  runs : Move T

module _ {T : Type 0} where
  abbrev pub started : Threads T
  started = record {
    executor = idle;
    mutex = Mutex.free;
    num_lock_failures = 0;
    producer = λ i. Producer.absent;
    runner = Runner.absent;
    enqueued = [];
    executed = [];
  }

  unfoldable pub set_producer : ℕ → Producer T → Threads T → Threads T
  set_producer i p s = record s { producer = update s.producer i p }

  -- `lock`: a thread that has to wait makes no step.
  unfoldable pub lock : Mutex → Threads T → Mutex → Option (Threads T)
  lock owner s Mutex.free = some (record s { mutex = owner })
  lock owner s Mutex.by_runner = none
  lock owner s (Mutex.by_producer j) = none

  unfoldable pub call_enqueue : ℕ → T → Threads T → Producer T → Option (Threads T)
  call_enqueue i t s Producer.absent = some (set_producer i (Producer.trying t) s)
  call_enqueue i t s p = none

  -- `if (!mutex_.try_lock()) { ++num_lock_failures_; ... }`. That `try_lock` may fail although the mutex is
  -- free, as the standard allows, is left out.
  unfoldable pub try_lock : Mutex → (failed : Threads T) → (locked : Threads T) → Mutex → Threads T
  try_lock owner failed locked Mutex.free = record locked { mutex = owner }
  try_lock owner failed locked Mutex.by_runner = record failed {
    num_lock_failures = failed.num_lock_failures + 1;
  }
  try_lock owner failed locked (Mutex.by_producer j) = record failed {
    num_lock_failures = failed.num_lock_failures + 1;
  }

  unfoldable pub produce : ℕ → Threads T → Producer T → Option (Threads T)
  produce i s Producer.absent = none
  produce i s (Producer.trying t) = some (
      try_lock (Mutex.by_producer i) (set_producer i (Producer.waiting t) s)
        (set_producer i (Producer.holding t) s) s.mutex)
  produce i s (Producer.waiting t) =
      lock (Mutex.by_producer i) (set_producer i (Producer.holding t) s) s.mutex
  produce i s (Producer.holding t) = some (
      set_producer i Producer.releasing
        (record s { executor = enqueue_work s.executor t; enqueued = s.enqueued ++ t ∷ [] }))
  produce i s Producer.releasing =
      some (set_producer i Producer.absent (record s { mutex = Mutex.free }))

  unfoldable pub run_on : Threads T → Runner T → Threads T
  run_on s r = record s { runner = r }

  unfoldable pub execute : Threads T → Runner T → Option (Threads T)
  execute s Runner.absent = some (run_on s Runner.trying)
  execute s Runner.trying =
      some (try_lock Mutex.by_runner (run_on s Runner.waiting) (run_on s Runner.holding) s.mutex)
  execute s Runner.waiting = lock Mutex.by_runner (run_on s Runner.holding) s.mutex
  execute s Runner.holding =
      some (record s { executor = swap_buffers s.executor; runner = Runner.releasing })
  execute s Runner.releasing =
      some (record s { mutex = Mutex.free; runner = Runner.running s.executor.back_buffer })
  execute s (Runner.running []) =
      some (record s { executor = clear_back_buffer s.executor; runner = Runner.absent })
  execute s (Runner.running (t ∷ ts)) =
      some (record s { executed = s.executed ++ t ∷ []; runner = Runner.running ts })

  unfoldable pub step : Move T → Threads T → Option (Threads T)
  step (Move.calls i t) s = call_enqueue i t s (s.producer i)
  step (Move.produces i) s = produce i s (s.producer i)
  step Move.runs s = execute s s.runner

  abbrev pub then_run : Option (Threads T) → (Threads T → Option (Threads T)) → Option (Threads T)
  then_run none f = none
  then_run (some s) f = f s

  unfoldable pub run : List (Move T) → Threads T → Option (Threads T)
  run [] s = some s
  run (m ∷ ms) s = then_run (step m s) (run ms)
