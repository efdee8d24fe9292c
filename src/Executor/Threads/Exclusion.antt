-- ===== src/Executor/Threads/Exclusion.antt =====
-- Every step of `enqueue_work` and `execute` of executor.h keeps the threads out of each other's way.
use minicomps.Prelude.{
  ℕ, ◌≡◌, refl, sym, ap, ◌∙◌, true, false, some, List, [], ◌∷◌, ◌++◌, subst, ==_iff,
}
use minicomps.Executor.{enqueue_work, swap_buffers, clear_back_buffer}
use minicomps.Executor.Threads.{
  Producer, Runner, Mutex, Threads, Move, started, set_producer, lock, try_lock, call_enqueue,
  produce, run_on, execute, step, run,
}
use minicomps.Executor.Threads.Order.{Holds, then_run-Holds}
use minicomps.Executor.Threads.Inside.{
  holder, runner_holder, producer_inside, runner_inside, held_by, held_by_runner, IsExclusive,
  set_producer-IsExclusive, take-IsExclusive, free-IsExclusive, same, acquired-IsExclusive,
}

module _ {T : Type 0} where
  lock-IsExclusive :
      (i : ℕ) (t : T) (s : Threads T) (m : Mutex)
      → s.mutex ≡ m
      → IsExclusive s
      → Holds IsExclusive (lock (Mutex.by_producer i) (set_producer i (Producer.holding t) s) m)
  unfolding lock
  lock-IsExclusive i t s Mutex.free f v = take-IsExclusive i (Producer.holding t) s refl f v
  lock-IsExclusive i t s Mutex.by_runner f v = tt
  lock-IsExclusive i t s (Mutex.by_producer j) f v = tt

  try_lock-IsExclusive :
      (i : ℕ) (t : T) (s : Threads T) (m : Mutex)
      → s.mutex ≡ m
      → s.producer i ≡ Producer.trying t
      → IsExclusive s
      → IsExclusive (
          try_lock
            (Mutex.by_producer i)
            (set_producer i (Producer.waiting t) s)
            (set_producer i (Producer.holding t) s)
            m)
  unfolding try_lock
  try_lock-IsExclusive i t s Mutex.free f e v = take-IsExclusive i (Producer.holding t) s refl f v
  try_lock-IsExclusive i t s Mutex.by_runner f e v =
      same (set_producer i (Producer.waiting t) s)
        (try_lock (Mutex.by_producer i) (set_producer i (Producer.waiting t) s) s Mutex.by_runner)
        refl refl refl (set_producer-IsExclusive i (Producer.waiting t) s (rw e refl) v)
  try_lock-IsExclusive i t s (Mutex.by_producer j) f e v =
      same (set_producer i (Producer.waiting t) s)
        (try_lock (Mutex.by_producer i) (set_producer i (Producer.waiting t) s) s
          (Mutex.by_producer j))
        refl refl refl (set_producer-IsExclusive i (Producer.waiting t) s (rw e refl) v)

  call_enqueue-IsExclusive :
      (i : ℕ) (t : T) (s : Threads T) (p : Producer T)
      → s.producer i ≡ p
      → IsExclusive s
      → Holds IsExclusive (call_enqueue i t s p)
  unfolding call_enqueue
  call_enqueue-IsExclusive i t s Producer.absent e v =
      set_producer-IsExclusive i (Producer.trying t) s (rw e refl) v
  call_enqueue-IsExclusive i t s (Producer.trying u) e v = tt
  call_enqueue-IsExclusive i t s (Producer.waiting u) e v = tt
  call_enqueue-IsExclusive i t s (Producer.holding u) e v = tt
  call_enqueue-IsExclusive i t s Producer.releasing e v = tt

  produce-IsExclusive :
      (i : ℕ) (s : Threads T) (p : Producer T)
      → s.producer i ≡ p
      → IsExclusive s
      → Holds IsExclusive (produce i s p)
  unfolding produce
  produce-IsExclusive i s Producer.absent e v = tt
  produce-IsExclusive i s (Producer.trying t) e v = try_lock-IsExclusive i t s s.mutex refl e v
  produce-IsExclusive i s (Producer.waiting t) e v = lock-IsExclusive i t s s.mutex refl v
  produce-IsExclusive i s (Producer.holding t) e v =
      set_producer-IsExclusive i Producer.releasing
        (record s { executor = enqueue_work s.executor t; enqueued = s.enqueued ++ t ∷ [] })
        (rw e refl)
        (same s (record s { executor = enqueue_work s.executor t; enqueued = s.enqueued ++ t ∷ [] })
          refl refl refl v)
  produce-IsExclusive i s Producer.releasing e v = free-IsExclusive i s (rw e refl) v

  -- The runner takes the mutex, or gives it back.
  try_runner-IsExclusive :
      (s : Threads T) (m : Mutex)
      → s.runner ≡ Runner.trying
      → s.mutex ≡ m
      → IsExclusive s
      → IsExclusive (try_lock Mutex.by_runner (run_on s Runner.waiting) (run_on s Runner.holding) m)
  unfolding try_lock run_on
  try_runner-IsExclusive s Mutex.free e f v = acquired-IsExclusive s f v
  try_runner-IsExclusive s Mutex.by_runner e f v =
      same s (try_lock Mutex.by_runner (run_on s Runner.waiting) s Mutex.by_runner) refl refl
        (rw e refl) v
  try_runner-IsExclusive s (Mutex.by_producer j) e f v =
      same s (try_lock Mutex.by_runner (run_on s Runner.waiting) s (Mutex.by_producer j)) refl refl
        (rw e refl) v

  lock_runner-IsExclusive :
      (s : Threads T) (m : Mutex)
      → s.mutex ≡ m
      → IsExclusive s
      → Holds IsExclusive (lock Mutex.by_runner (run_on s Runner.holding) m)
  unfolding lock
  lock_runner-IsExclusive s Mutex.free f v = acquired-IsExclusive s f v
  lock_runner-IsExclusive s Mutex.by_runner f v = tt
  lock_runner-IsExclusive s (Mutex.by_producer j) f v = tt

  execute-IsExclusive :
      (s : Threads T) (r : Runner T)
      → s.runner ≡ r
      → IsExclusive s
      → Holds IsExclusive (execute s r)
  unfolding execute run_on
  execute-IsExclusive s Runner.absent e v = same s (run_on s Runner.trying) refl refl (rw e refl) v
  execute-IsExclusive s Runner.trying e v = try_runner-IsExclusive s s.mutex e refl v
  execute-IsExclusive s Runner.waiting e v = lock_runner-IsExclusive s s.mutex refl v
  execute-IsExclusive s Runner.holding e v =
      same s (record s { executor = swap_buffers s.executor; runner = Runner.releasing }) refl refl
        (rw e refl) v
  execute-IsExclusive s Runner.releasing e v =
      let mine : s.mutex ≡ Mutex.by_runner = runner_holder s.mutex (sym v.runner ∙ rw e refl) in
      record { producers = λ i. v.producers i ∙ ap (held_by i) mine; runner = refl }
  execute-IsExclusive s (Runner.running []) e v =
      same s (record s { executor = clear_back_buffer s.executor; runner = Runner.absent }) refl
        refl (rw e refl) v
  execute-IsExclusive s (Runner.running (t ∷ ts)) e v =
      same s (record s { executed = s.executed ++ t ∷ []; runner = Runner.running ts }) refl refl
        (rw e refl) v

  step-IsExclusive : (m : Move T) (s : Threads T) → IsExclusive s → Holds IsExclusive (step m s)
  unfolding step
  step-IsExclusive (Move.calls i t) s v = call_enqueue-IsExclusive i t s (s.producer i) refl v
  step-IsExclusive (Move.produces i) s v = produce-IsExclusive i s (s.producer i) refl v
  step-IsExclusive Move.runs s v = execute-IsExclusive s s.runner refl v

  run-Holds : (ms : List (Move T)) (s : Threads T) → IsExclusive s → Holds IsExclusive (run ms s)
  unfolding run
  run-Holds [] s v = v
  run-Holds (m ∷ ms) s v =
      then_run-Holds IsExclusive (step m s) (run ms) (step-IsExclusive m s v) (run-Holds ms)

pub run-IsExclusive :
    {T : Type 0} (ms : List (Move T)) {s : Threads T} → run ms started ≡ some s → IsExclusive s
run-IsExclusive ms e =
    subst (Holds IsExclusive) e
      (run-Holds ms started (record { producers = λ k. refl; runner = refl }))

-- Whatever steps the threads have made, in any order: of the threads between the locking and the
-- unlocking of the mutex there is at most one, be it in `enqueue_work` or in `execute`.
pub run-inside :
    {T : Type 0} (ms : List (Move T)) {s : Threads T} (i j : ℕ)
    → run ms started ≡ some s
    → producer_inside (s.producer i) ≡ true
    → (producer_inside (s.producer j) ≡ true → i ≡ j) × (runner_inside s.runner ≡ false)
run-inside ms {s} i j e h =
    let v = run-IsExclusive ms e in
    let mine : s.mutex ≡ Mutex.by_producer i = holder i s.mutex (sym (v.producers i) ∙ h) in
    (
      λ k. (==_iff i j).0 (sym (ap (held_by j) mine) ∙ sym (v.producers j) ∙ k),
      v.runner ∙ ap held_by_runner mine,
    )
