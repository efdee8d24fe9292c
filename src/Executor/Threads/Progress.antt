-- ===== src/Executor/Threads/Progress.antt =====
-- How many steps the thread in `execute` of executor.h needs to run all that waits.
use minicomps.Prelude.{
  ℕ, ◌+◌, ◌≤◌, ◌≡◌, refl, sym, ap, ◌∙◌, true, false, some, List, [], ◌++◌, append_assoc, length,
  length-append, arith,
}
use minicomps.Executor.{clear_back_buffer}
use minicomps.Executor.Threads.{Runner, Mutex, Threads, Move, started, run}
use minicomps.Executor.Threads.Order.{rest, before_swap, IsOrdered, run-IsOrdered}
use minicomps.Executor.Threads.Inside.{producer_inside, runner_inside, held_by, held_by_runner}
use minicomps.Executor.Threads.Exclusion.{run-IsExclusive}
use minicomps.Executor.Threads.Round.{
  Drains, looped, loop, from_releasing, from_holding, from_trying, from_waiting, from_absent,
}

free : (m : Mutex) → ((i : ℕ) → held_by i m ≡ false) → held_by_runner m ≡ false → m ≡ Mutex.free
free Mutex.free p r = refl
free Mutex.by_runner p r = absurd (cc)
free (Mutex.by_producer i) p r = absurd (ground (arith, p i))

module _ {T : Type 0} where
  weaken : {n m : ℕ} {done : List T} {s : Threads T} → n ≤ m → Drains n done s → Drains m done s
  weaken l d = record {
    steps = d.steps;
    bound = omega (arith, l, d.bound);
    final = d.final;
    goes = d.goes;
    returned = d.returned;
    waiting = d.waiting;
    executed = d.executed;
    enqueued = d.enqueued;
  }

  -- The tasks that have been enqueued and have not run.
  abbrev pub unfinished : Threads T → List T
  unfinished s = rest s.runner s.executor.back_buffer ++ s.executor.work_items

  executed-unfinished : (s : Threads T) → IsOrdered s → s.executed ++ unfinished s ≡ s.enqueued
  executed-unfinished s v =
      sym (append_assoc s.executed (rest s.runner s.executor.back_buffer) s.executor.work_items)
      ∙ v.all

  length-unfinished :
      (s : Threads T)
      → length (unfinished s)
        ≡ length (rest s.runner s.executor.back_buffer) + length s.executor.work_items
  length-unfinished s = length-append (rest s.runner s.executor.back_buffer) s.executor.work_items

  rest-before_swap : (r : Runner T) (l : List T) → before_swap r ≡ true → rest r l ≡ l
  rest-before_swap Runner.absent l h = refl
  rest-before_swap Runner.trying l h = refl
  rest-before_swap Runner.waiting l h = refl
  rest-before_swap Runner.holding l h = refl
  rest-before_swap Runner.releasing l h = refl
  rest-before_swap (Runner.running ts) l h = absurd (cc)

  -- Before the buffers are swapped all that is unfinished waits in the queue.
  unfinished-before_swap :
      (s : Threads T)
      → before_swap s.runner ≡ true
      → IsOrdered s
      → unfinished s ≡ s.executor.work_items
  unfinished-before_swap s h v =
      ap (λ l. l ++ s.executor.work_items)
        (rest-before_swap s.runner s.executor.back_buffer h ∙ v.empty h)

  waiting_Drains :
      {n : ℕ} (s : Threads T)
      → before_swap s.runner ≡ true
      → IsOrdered s
      → n ≤ 7
      → (s.executor.back_buffer ≡ []
          → s.executed ++ s.executor.work_items ≡ s.enqueued
          → Drains (length s.executor.work_items + n) s.enqueued s)
      → Drains (length (unfinished s) + 7) s.enqueued s
  waiting_Drains s h v l d =
      let u = unfinished-before_swap s h v in
      weaken (omega (arith, l, ap length u))
        (d (v.empty h) (ap (λ w. s.executed ++ w) (sym u) ∙ executed-unfinished s v))

  -- The next round, after the loop over `ts`.
  again :
      (s : Threads T) (l ts : List T)
      → s.mutex ≡ Mutex.free
      → l ≡ s.executed ++ ts
      → s.executed ++ ts ++ s.executor.work_items ≡ s.enqueued
      → Drains (length s.executor.work_items + 5) s.enqueued (looped s l)
  unfolding clear_back_buffer
  again s l ts f q a =
      from_absent (looped s l) refl f refl (ap (λ k. k ++ s.executor.work_items) q ∙ a)

  rest_all :
      (s : Threads T) (r : Runner T)
      → s.runner ≡ r
      → IsOrdered s
      → s.executed ++ rest r s.executor.back_buffer ++ s.executor.work_items ≡ s.enqueued
  rest_all s r e v =
      ap (λ q. s.executed ++ rest q s.executor.back_buffer ++ s.executor.work_items) (sym e) ∙ v.all

  length-rest :
      (s : Threads T) (r : Runner T)
      → s.runner ≡ r
      → length (rest r s.executor.back_buffer) + length s.executor.work_items
        ≡ length (unfinished s)
  length-rest s r e =
      omega (arith, length-unfinished s, ap (λ q. length (rest q s.executor.back_buffer)) e)

  runner_Drains :
      (r : Runner T) (s : Threads T)
      → s.runner ≡ r
      → IsOrdered s
      → (runner_inside r ≡ false → s.mutex ≡ Mutex.free)
      → Drains (length (unfinished s) + 7) s.enqueued s
  runner_Drains Runner.absent s e v f =
      waiting_Drains s (rw e refl) v (omega arith) (from_absent s e (f refl))
  runner_Drains Runner.trying s e v f =
      waiting_Drains s (rw e refl) v (omega arith) (from_trying s e (f refl))
  runner_Drains Runner.waiting s e v f =
      waiting_Drains s (rw e refl) v (omega arith) (from_waiting s e (f refl))
  runner_Drains Runner.holding s e v f =
      waiting_Drains s (rw e refl) v (omega arith) (from_holding s e)
  runner_Drains Runner.releasing s e v f =
      let b = s.executor.back_buffer in
      weaken (omega (arith, length-rest s Runner.releasing e)) (
        from_releasing s e (λ l q.
          again (record s { mutex = Mutex.free }) l b refl q (rest_all s Runner.releasing e v)))
  runner_Drains (Runner.running ts) s e v f =
      weaken (omega (arith, length-rest s (Runner.running ts) e))
        (loop ts s e (λ l q. again s l ts (f refl) q (rest_all s (Runner.running ts) e v)))

-- If no thread of `enqueue_work` is between the locking and the unlocking of the mutex, the runner
-- is never made to wait.
pub quiet-Drains :
    {T : Type 0} (ms : List (Move T)) {s : Threads T}
    → run ms started ≡ some s
    → ((i : ℕ) → producer_inside (s.producer i) ≡ false)
    → Drains (length (unfinished s) + 7) s.enqueued s
quiet-Drains ms {s} e p =
    let x = run-IsExclusive ms e in
    runner_Drains s.runner s refl (run-IsOrdered ms e)
      (λ h. free s.mutex (λ i. sym (x.producers i) ∙ p i) (sym x.runner ∙ h))
