-- ===== src/Executor/Threads/Round.antt =====
-- One round of `execute` of executor.h, step by step: from each place where its thread can be, it returns
-- after a bounded number of steps.
use minicomps.Prelude.{
  ℕ, zero, suc, ◌+◌, ◌≤◌, ◌≡◌, refl, sym, ap, ◌∙◌, some, List, [], ◌∷◌, ◌++◌, append_assoc,
  append-nil, length, arith,
}
use minicomps.Executor.{idle, swap_buffers, clear_back_buffer}
use minicomps.Executor.Threads.{
  Runner, Mutex, Threads, Move, lock, try_lock, run_on, execute, step, run, then_run,
}

module _ {T : Type 0} where
  unfoldable pub repeat : ℕ → Move T → List (Move T)
  repeat zero m = []
  repeat (suc n) m = m ∷ repeat n m

  -- After at most `limit` steps of the runner alone it has returned from `execute`, the tasks of `done`
  -- have run, and none waits.
  pub record Drains (limit : ℕ) (done : List T) (s : Threads T) : Type 0 where
    pub steps : ℕ
    pub bound : steps ≤ limit
    pub final : Threads T
    pub goes : run (repeat steps Move.runs) s ≡ some final
    pub returned : final.runner ≡ Runner.absent
    pub waiting : final.executor ≡ idle
    pub executed : final.executed ≡ done
    pub enqueued : final.enqueued ≡ s.enqueued

  step_runs :
      (n : ℕ) (r : Runner T) (s s1 : Threads T)
      → s.runner ≡ r
      → execute s r ≡ some s1
      → run (repeat (suc n) Move.runs) s ≡ run (repeat n Move.runs) s1
  unfolding repeat run step
  step_runs n r s s1 e x = ap (λ o. then_run o (run (repeat n Move.runs))) (ap (execute s) e ∙ x)

  advance :
      {n m : ℕ} {done : List T} (r : Runner T) (s s1 : Threads T)
      → suc n ≤ m
      → s.runner ≡ r
      → execute s r ≡ some s1
      → s1.enqueued ≡ s.enqueued
      → Drains n done s1
      → Drains m done s
  advance r s s1 l e x q d = record {
    steps = suc d.steps;
    bound = omega (arith, l, d.bound);
    final = d.final;
    goes = step_runs d.steps r s s1 e x ∙ d.goes;
    returned = d.returned;
    waiting = d.waiting;
    executed = d.executed;
    enqueued = d.enqueued ∙ q;
  }

  stop :
      (s : Threads T) (done : List T)
      → s.runner ≡ Runner.absent
      → s.executor ≡ idle
      → s.executed ≡ done
      → Drains 0 done s
  unfolding repeat run
  stop s done r x d = record {
    steps = 0;
    bound = omega arith;
    final = s;
    goes = refl;
    returned = r;
    waiting = x;
    executed = d;
    enqueued = refl;
  }

  -- The loop of `execute` over the tasks `ts`, and the statement behind it.
  abbrev pub looped : Threads T → List T → Threads T
  looped s l = record s {
    executor = clear_back_buffer s.executor;
    executed = l;
    runner = Runner.absent;
  }

  pub loop :
      {n : ℕ} {done : List T} (ts : List T) (s : Threads T)
      → s.runner ≡ Runner.running ts
      → ((l : List T) → l ≡ s.executed ++ ts → Drains n done (looped s l))
      → Drains (length ts + n + 1) done s
  unfolding execute
  loop [] s e d =
      advance (Runner.running []) s (looped s s.executed) (omega arith) e refl refl
        (d s.executed (sym (append-nil s.executed)))
  loop (t ∷ ts) s e d =
      let s1 = record s { executed = s.executed ++ t ∷ []; runner = Runner.running ts } in
      advance (Runner.running (t ∷ ts)) s s1 (omega arith) e refl refl
        (loop ts s1 refl (λ l q. d l (q ∙ simp append_assoc)))

  pub from_releasing :
      {n : ℕ} {done : List T} (s : Threads T)
      → s.runner ≡ Runner.releasing
      → ((l : List T)
          → l ≡ s.executed ++ s.executor.back_buffer
          → Drains n done (looped (record s { mutex = Mutex.free }) l))
      → Drains (length s.executor.back_buffer + n + 2) done s
  unfolding execute
  from_releasing s e d =
      let s1 = record s { mutex = Mutex.free; runner = Runner.running s.executor.back_buffer } in
      advance Runner.releasing s s1 (omega arith) e refl refl
        (loop s.executor.back_buffer s1 refl d)

  pub from_holding :
      {done : List T} (s : Threads T)
      → s.runner ≡ Runner.holding
      → s.executor.back_buffer ≡ []
      → s.executed ++ s.executor.work_items ≡ done
      → Drains (length s.executor.work_items + 3) done s
  unfolding execute swap_buffers clear_back_buffer
  from_holding s e none_back q =
      let s1 = record s { executor = swap_buffers s.executor; runner = Runner.releasing } in
      advance Runner.holding s s1 (omega arith) e refl refl (
        from_releasing s1 refl (λ l p.
          stop (looped (record s1 { mutex = Mutex.free }) l) _ refl
            (ap (λ w. record { work_items = w; back_buffer = [] }) none_back) (p ∙ q)))

  from_acquired :
      {done : List T} (r : Runner T) (s : Threads T)
      → s.runner ≡ r
      → execute s r ≡ some (record s { mutex = Mutex.by_runner; runner = Runner.holding })
      → s.executor.back_buffer ≡ []
      → s.executed ++ s.executor.work_items ≡ done
      → Drains (length s.executor.work_items + 4) done s
  from_acquired r s e x none_back q =
      let s1 = record s { mutex = Mutex.by_runner; runner = Runner.holding } in
      advance r s s1 (omega arith) e x refl (from_holding s1 refl none_back q)

  pub from_trying :
      {done : List T} (s : Threads T)
      → s.runner ≡ Runner.trying
      → s.mutex ≡ Mutex.free
      → s.executor.back_buffer ≡ []
      → s.executed ++ s.executor.work_items ≡ done
      → Drains (length s.executor.work_items + 4) done s
  unfolding execute try_lock run_on
  from_trying s e f = from_acquired Runner.trying s e (rw f refl)

  pub from_waiting :
      {done : List T} (s : Threads T)
      → s.runner ≡ Runner.waiting
      → s.mutex ≡ Mutex.free
      → s.executor.back_buffer ≡ []
      → s.executed ++ s.executor.work_items ≡ done
      → Drains (length s.executor.work_items + 4) done s
  unfolding execute lock run_on
  from_waiting s e f = from_acquired Runner.waiting s e (rw f refl)

  pub from_absent :
      {done : List T} (s : Threads T)
      → s.runner ≡ Runner.absent
      → s.mutex ≡ Mutex.free
      → s.executor.back_buffer ≡ []
      → s.executed ++ s.executor.work_items ≡ done
      → Drains (length s.executor.work_items + 5) done s
  unfolding execute run_on
  from_absent s e f none_back q =
      let s1 = record s { runner = Runner.trying } in
      advance Runner.absent s s1 (omega arith) e refl refl (from_trying s1 refl f none_back q)
