-- ===== src/Executor/Threads/Inside.antt =====
-- `mutex_` of executor.h is held by the thread that is between its locking and its unlocking.
use minicomps.Prelude.{ℕ, ◌≡◌, refl, sym, ap, ◌∙◌, Bool, true, false, arith, ◌==◌, ==_iff}
use minicomps.Executor.Threads.{Producer, Runner, Mutex, Threads, set_producer, run_on}

-- Whether the mutex is held by the thread `i` of `enqueue_work`, or by that of `execute`.
abbrev pub held_by : ℕ → Mutex → Bool
held_by i Mutex.free = false
held_by i Mutex.by_runner = false
held_by i (Mutex.by_producer j) = j == i

abbrev pub held_by_runner : Mutex → Bool
held_by_runner Mutex.free = false
held_by_runner Mutex.by_runner = true
held_by_runner (Mutex.by_producer j) = false

pub holder : (i : ℕ) (m : Mutex) → held_by i m ≡ true → m ≡ Mutex.by_producer i
holder i Mutex.free h = absurd (cc)
holder i Mutex.by_runner h = absurd (cc)
holder i (Mutex.by_producer j) h = ap Mutex.by_producer ((==_iff j i).0 h)

pub runner_holder : (m : Mutex) → held_by_runner m ≡ true → m ≡ Mutex.by_runner
runner_holder Mutex.free h = absurd (cc)
runner_holder Mutex.by_runner h = refl
runner_holder (Mutex.by_producer j) h = absurd (cc)

module _ {T : Type 0} where
  abbrev pub producer_inside : Producer T → Bool
  producer_inside (Producer.holding t) = true
  producer_inside Producer.releasing = true
  producer_inside p = false

  abbrev pub runner_inside : Runner T → Bool
  runner_inside Runner.holding = true
  runner_inside Runner.releasing = true
  runner_inside r = false

  pub record IsExclusive (s : Threads T) : Type 0 where
    pub producers : (i : ℕ) → producer_inside (s.producer i) ≡ held_by i s.mutex
    pub runner : runner_inside s.runner ≡ held_by_runner s.mutex

  -- A thread moves on, with the mutex as it is.
  pub set_producer-IsExclusive :
      (i : ℕ) (p : Producer T) (s : Threads T)
      → producer_inside p ≡ producer_inside (s.producer i)
      → IsExclusive s
      → IsExclusive (set_producer i p s)
  unfolding set_producer
  set_producer-IsExclusive i p s e v = record {
    producers = λ j. ground (arith, e, v.producers j, v.producers i);
    runner = v.runner;
  }

  -- It takes the mutex that was free.
  pub take-IsExclusive :
      (i : ℕ) (p : Producer T) (s : Threads T)
      → producer_inside p ≡ true
      → s.mutex ≡ Mutex.free
      → IsExclusive s
      → IsExclusive (record (set_producer i p s) { mutex = Mutex.by_producer i })
  unfolding set_producer
  take-IsExclusive i p s e f v = record {
    producers = λ j. ground (arith, e, v.producers j ∙ ap (held_by j) f);
    runner = v.runner ∙ ap held_by_runner f;
  }

  -- It gives the mutex back that it had.
  pub free-IsExclusive :
      (i : ℕ) (s : Threads T)
      → producer_inside (s.producer i) ≡ true
      → IsExclusive s
      → IsExclusive (set_producer i Producer.absent (record s { mutex = Mutex.free }))
  unfolding set_producer
  free-IsExclusive i s e v =
      let mine : s.mutex ≡ Mutex.by_producer i = holder i s.mutex (sym (v.producers i) ∙ e) in
      record {
        producers = λ j. ground (arith, v.producers j ∙ ap (held_by j) mine);
        runner = v.runner ∙ ap held_by_runner mine;
      }

  -- Only the mutex and the threads matter.
  pub same :
      (s s' : Threads T)
      → s'.mutex ≡ s.mutex
      → s'.producer ≡ s.producer
      → runner_inside s'.runner ≡ runner_inside s.runner
      → IsExclusive s
      → IsExclusive s'
  same s s' m p r v = record {
    producers = λ i. ap (λ f. producer_inside (f i)) p ∙ v.producers i ∙ ap (held_by i) (sym m);
    runner = r ∙ v.runner ∙ ap held_by_runner (sym m);
  }

  -- The runner takes the mutex.
  pub acquired-IsExclusive :
      (s : Threads T)
      → s.mutex ≡ Mutex.free
      → IsExclusive s
      → IsExclusive (record (run_on s Runner.holding) { mutex = Mutex.by_runner })
  unfolding run_on
  acquired-IsExclusive s f v = record {
    producers = λ i. v.producers i ∙ ap (held_by i) f;
    runner = refl;
  }
