-- ===== src/Executor/Threads/Order.antt =====
-- What holds of an executor of executor.h whatever order its threads run in.
use minicomps.Prelude.{
  ℕ, ◌≡◌, refl, sym, ap, ◌∙◌, Bool, true, false, Option, none, some, List, [], ◌∷◌, ◌++◌,
  append_assoc, append-nil, subst,
}
use minicomps.Executor.{enqueue_work, swap_buffers, clear_back_buffer}
use minicomps.Executor.Threads.{
  Producer, Runner, Mutex, Threads, Move, started, set_producer, lock, try_lock, call_enqueue,
  produce, run_on, execute, step, run, then_run,
}

module _ {T : Type 0} where
  -- The tasks of the back buffer that have not run, by where the runner is; there are none in the back
  -- buffer before the buffers are swapped.
  abbrev pub rest : Runner T → List T → List T
  rest Runner.absent l = l
  rest Runner.trying l = l
  rest Runner.waiting l = l
  rest Runner.holding l = l
  rest Runner.releasing l = l
  rest (Runner.running ts) l = ts

  abbrev pub before_swap : Runner T → Bool
  before_swap Runner.releasing = false
  before_swap (Runner.running ts) = false
  before_swap r = true

  pub record IsOrdered (s : Threads T) : Type 0 where
    pub all :
        s.executed ++ rest s.runner s.executor.back_buffer ++ s.executor.work_items ≡ s.enqueued
    pub empty : before_swap s.runner ≡ true → s.executor.back_buffer ≡ []

  abbrev pub Holds : (Threads T → Type 0) → Option (Threads T) → Type 0
  Holds P none = Unit {0}
  Holds P (some s) = P s

  same :
      (s s' : Threads T)
      → s'.executor ≡ s.executor
      → s'.enqueued ≡ s.enqueued
      → s'.executed ≡ s.executed
      → rest s'.runner s'.executor.back_buffer ≡ rest s.runner s.executor.back_buffer
      → before_swap s'.runner ≡ before_swap s.runner
      → IsOrdered s
      → IsOrdered s'
  same s s' x n d r b v = record {
    all =
        ap (λ l. l ++ rest s'.runner s'.executor.back_buffer ++ s'.executor.work_items) d
        ∙ ap (λ l. s.executed ++ l ++ s'.executor.work_items) r
        ∙ ap (λ e. s.executed ++ rest s.runner s.executor.back_buffer ++ e.work_items) x
        ∙ v.all
        ∙ sym n;
    empty = λ h. ap (λ e. e.back_buffer) x ∙ v.empty (sym b ∙ h);
  }

  lock-IsOrdered : (m n : Mutex) (s : Threads T) → IsOrdered s → Holds IsOrdered (lock m s n)
  unfolding lock
  lock-IsOrdered m Mutex.free s v = same s (record s { mutex = m }) refl refl refl refl refl v
  lock-IsOrdered m Mutex.by_runner s v = tt
  lock-IsOrdered m (Mutex.by_producer j) s v = tt

  try_lock-IsOrdered :
      (m n : Mutex) (f l : Threads T) → IsOrdered f → IsOrdered l → IsOrdered (try_lock m f l n)
  unfolding try_lock
  try_lock-IsOrdered m Mutex.free f l v w =
      same l (record l { mutex = m }) refl refl refl refl refl w
  try_lock-IsOrdered m Mutex.by_runner f l v w =
      same f (try_lock m f l Mutex.by_runner) refl refl refl refl refl v
  try_lock-IsOrdered m (Mutex.by_producer j) f l v w =
      same f (try_lock m f l (Mutex.by_producer j)) refl refl refl refl refl v

  set_producer-IsOrdered :
      (i : ℕ) (p : Producer T) (s : Threads T) → IsOrdered s → IsOrdered (set_producer i p s)
  unfolding set_producer
  set_producer-IsOrdered i p s v = same s (set_producer i p s) refl refl refl refl refl v

  call_enqueue-IsOrdered :
      (i : ℕ) (t : T) (s : Threads T) (p : Producer T)
      → IsOrdered s
      → Holds IsOrdered (call_enqueue i t s p)
  unfolding call_enqueue
  call_enqueue-IsOrdered i t s Producer.absent v = set_producer-IsOrdered i (Producer.trying t) s v
  call_enqueue-IsOrdered i t s (Producer.trying u) v = tt
  call_enqueue-IsOrdered i t s (Producer.waiting u) v = tt
  call_enqueue-IsOrdered i t s (Producer.holding u) v = tt
  call_enqueue-IsOrdered i t s Producer.releasing v = tt

  enqueue-IsOrdered :
      (t : T) (s : Threads T)
      → IsOrdered s
      → IsOrdered
          (record s { executor = enqueue_work s.executor t; enqueued = s.enqueued ++ t ∷ [] })
  unfolding enqueue_work
  enqueue-IsOrdered t s v = record {
    all = (simp append_assoc) ∙ ap (λ l. l ++ t ∷ []) v.all;
    empty = v.empty;
  }

  produce-IsOrdered :
      (i : ℕ) (s : Threads T) (p : Producer T) → IsOrdered s → Holds IsOrdered (produce i s p)
  unfolding produce
  produce-IsOrdered i s Producer.absent v = tt
  produce-IsOrdered i s (Producer.trying t) v =
      try_lock-IsOrdered (Mutex.by_producer i) s.mutex (set_producer i (Producer.waiting t) s)
        (set_producer i (Producer.holding t) s) (set_producer-IsOrdered i (Producer.waiting t) s v)
        (set_producer-IsOrdered i (Producer.holding t) s v)
  produce-IsOrdered i s (Producer.waiting t) v =
      lock-IsOrdered (Mutex.by_producer i) s.mutex (set_producer i (Producer.holding t) s)
        (set_producer-IsOrdered i (Producer.holding t) s v)
  produce-IsOrdered i s (Producer.holding t) v =
      set_producer-IsOrdered i Producer.releasing
        (record s { executor = enqueue_work s.executor t; enqueued = s.enqueued ++ t ∷ [] })
        (enqueue-IsOrdered t s v)
  produce-IsOrdered i s Producer.releasing v =
      set_producer-IsOrdered i Producer.absent (record s { mutex = Mutex.free })
        (same s (record s { mutex = Mutex.free }) refl refl refl refl refl v)

  run_on-IsOrdered :
      (r : Runner T) (s : Threads T)
      → before_swap s.runner ≡ true
      → rest r s.executor.back_buffer ≡ rest s.runner s.executor.back_buffer
      → before_swap r ≡ true
      → IsOrdered s
      → IsOrdered (run_on s r)
  unfolding run_on
  run_on-IsOrdered r s b q c v = same s (run_on s r) refl refl refl q (c ∙ sym b) v

  execute-IsOrdered :
      (s : Threads T) (r : Runner T) → s.runner ≡ r → IsOrdered s → Holds IsOrdered (execute s r)
  unfolding execute
  execute-IsOrdered s Runner.absent e v =
      run_on-IsOrdered Runner.trying s (rw e refl) (rw e refl) refl v
  execute-IsOrdered s Runner.trying e v =
      try_lock-IsOrdered Mutex.by_runner s.mutex (run_on s Runner.waiting) (run_on s Runner.holding)
        (run_on-IsOrdered Runner.waiting s (rw e refl) (rw e refl) refl v)
        (run_on-IsOrdered Runner.holding s (rw e refl) (rw e refl) refl v)
  execute-IsOrdered s Runner.waiting e v =
      lock-IsOrdered Mutex.by_runner s.mutex (run_on s Runner.holding)
        (run_on-IsOrdered Runner.holding s (rw e refl) (rw e refl) refl v)
  execute-IsOrdered s Runner.holding e v =
      let none_back : s.executor.back_buffer ≡ [] = v.empty (rw e refl) in
      unfold swap_buffers in
      record {
        all =
            ap (λ l. s.executed ++ s.executor.work_items ++ l) none_back
            ∙ (simp (append_assoc, append-nil))
            ∙ ap (λ l. s.executed ++ l ++ s.executor.work_items)
                (sym (ap (λ r. rest r s.executor.back_buffer) e ∙ none_back))
            ∙ v.all;
        empty = λ h. cc;
      }
  execute-IsOrdered s Runner.releasing e v = record {
    all =
        ap (λ r. s.executed ++ rest r s.executor.back_buffer ++ s.executor.work_items) (sym e)
        ∙ v.all;
    empty = λ h. cc;
  }
  execute-IsOrdered s (Runner.running []) e v =
      unfold clear_back_buffer in
      record {
        all =
            ap (λ r. s.executed ++ rest r s.executor.back_buffer ++ s.executor.work_items) (sym e)
            ∙ v.all;
        empty = λ h. refl;
      }
  execute-IsOrdered s (Runner.running (t ∷ ts)) e v = record {
    all =
        (simp append_assoc)
        ∙ ap (λ r. s.executed ++ rest r s.executor.back_buffer ++ s.executor.work_items) (sym e)
        ∙ v.all;
    empty = λ h. cc;
  }

  step-IsOrdered : (m : Move T) (s : Threads T) → IsOrdered s → Holds IsOrdered (step m s)
  unfolding step
  step-IsOrdered (Move.calls i t) s v = call_enqueue-IsOrdered i t s (s.producer i) v
  step-IsOrdered (Move.produces i) s v = produce-IsOrdered i s (s.producer i) v
  step-IsOrdered Move.runs s v = execute-IsOrdered s s.runner refl v

  pub then_run-Holds :
      (P : Threads T → Type 0) (o : Option (Threads T)) (f : Threads T → Option (Threads T))
      → Holds P o
      → ((s : Threads T) → P s → Holds P (f s))
      → Holds P (then_run o f)
  then_run-Holds P none f h g = tt
  then_run-Holds P (some s) f h g = g s h

  run-Holds : (ms : List (Move T)) (s : Threads T) → IsOrdered s → Holds IsOrdered (run ms s)
  unfolding run
  run-Holds [] s v = v
  run-Holds (m ∷ ms) s v =
      then_run-Holds IsOrdered (step m s) (run ms) (step-IsOrdered m s v) (run-Holds ms)

-- Whatever steps any number of threads in `enqueue_work` and the thread in `execute` have made, in any
-- order: the tasks that have run, then those of the round in progress that have not, then those that
-- wait are exactly the tasks that were enqueued, in that order; and outside a round the back buffer is
-- empty. So no task is lost, runs twice, or overtakes another.
pub run-IsOrdered :
    {T : Type 0} (ms : List (Move T)) {s : Threads T} → run ms started ≡ some s → IsOrdered s
run-IsOrdered ms e =
    subst (Holds IsOrdered) e (run-Holds ms started (record { all = refl; empty = λ h. refl }))
