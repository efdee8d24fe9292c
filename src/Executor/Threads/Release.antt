-- ===== src/Executor/Threads/Release.antt =====
-- The thread in `enqueue_work` of executor.h that holds the mutex, and how the threads of an executor
-- come to rest.
use minicomps.Prelude.{
  ℕ, suc, ◌≤◌, ◌≡◌, refl, ap, ◌∙◌, true, false, Option, none, some, List, [], ◌∷◌, ◌++◌, arith,
  ==_self, ◌+◌, length,
}
use minicomps.Executor.{enqueue_work}
use minicomps.Executor.Threads.{
  Producer, Mutex, Threads, Move, started, set_producer, produce, step, run, then_run,
}
use minicomps.Executor.Threads.Inside.{producer_inside, held_by, IsExclusive}
use minicomps.Executor.Threads.Exclusion.{run-IsExclusive}
use minicomps.Executor.Threads.Progress.{unfinished, quiet-Drains}
use minicomps.Executor.Threads.Round.{repeat, Drains}

module _ {T : Type 0} where
  then_run_assoc :
      (o : Option (Threads T)) (f g h : Threads T → Option (Threads T))
      → ((s : Threads T) → h s ≡ then_run (f s) g)
      → then_run o h ≡ then_run (then_run o f) g
  then_run_assoc none f g h k = refl
  then_run_assoc (some s) f g h k = k s

  run-append :
      (ms ns : List (Move T)) (s : Threads T) → run (ms ++ ns) s ≡ then_run (run ms s) (run ns)
  unfolding run
  run-append [] ns s = refl
  run-append (m ∷ ms) ns s =
      then_run_assoc (step m s) (run ms) (run ns) (run (ms ++ ns)) (run-append ms ns)

  -- No thread of `enqueue_work` is between the locking and the unlocking.
  abbrev pub AllOutside : Threads T → Type 0
  AllOutside s = (i : ℕ) → producer_inside (s.producer i) ≡ false

  pub record Releases (s : Threads T) : Type 0 where
    pub owner : ℕ
    pub turns : ℕ
    pub few : turns ≤ 2
    pub final : Threads T
    pub goes : run (repeat turns (Move.produces owner)) s ≡ some final
    pub outside : AllOutside final

  produces :
      (n i : ℕ) (p : Producer T) (s s1 : Threads T)
      → s.producer i ≡ p
      → produce i s p ≡ some s1
      → run (repeat (suc n) (Move.produces i)) s ≡ run (repeat n (Move.produces i)) s1
  unfolding repeat run step
  produces n i p s s1 e x =
      ap (λ o. then_run o (run (repeat n (Move.produces i)))) (ap (produce i s) e ∙ x)

  others_outside :
      (i : ℕ) (s : Threads T)
      → s.mutex ≡ Mutex.by_producer i
      → IsExclusive s
      → AllOutside (set_producer i Producer.absent (record s { mutex = Mutex.free }))
  unfolding set_producer
  others_outside i s e v j = ground (arith, v.producers j ∙ ap (held_by j) e)

  from_releasing :
      (i : ℕ) (s : Threads T)
      → s.producer i ≡ Producer.releasing
      → run (repeat 1 (Move.produces i)) s
        ≡ some (set_producer i Producer.absent (record s { mutex = Mutex.free }))
  unfolding repeat run produce
  from_releasing i s e =
      produces 0 i Producer.releasing s
        (set_producer i Producer.absent (record s { mutex = Mutex.free })) e refl

  owner_Releases :
      (i : ℕ) (p : Producer T) (s : Threads T)
      → s.producer i ≡ p
      → producer_inside p ≡ true
      → s.mutex ≡ Mutex.by_producer i
      → IsExclusive s
      → Releases s
  unfolding produce set_producer
  owner_Releases i Producer.absent s e h m v = absurd (cc)
  owner_Releases i (Producer.trying t) s e h m v = absurd (cc)
  owner_Releases i (Producer.waiting t) s e h m v = absurd (cc)
  owner_Releases i (Producer.holding t) s e h m v =
      let s1 =
        set_producer i Producer.releasing
          (record s { executor = enqueue_work s.executor t; enqueued = s.enqueued ++ t ∷ [] }) in
      record {
        owner = i;
        turns = 2;
        few = omega arith;
        final = set_producer i Producer.absent (record s1 { mutex = Mutex.free });
        goes =
            produces 1 i (Producer.holding t) s s1 e refl
            ∙ from_releasing i s1 (rw (==_self i) refl);
        outside = λ j. ground (arith, v.producers j ∙ ap (held_by j) m);
      }
  owner_Releases i Producer.releasing s e h m v = record {
    owner = i;
    turns = 1;
    few = omega arith;
    final = set_producer i Producer.absent (record s { mutex = Mutex.free });
    goes = from_releasing i s e;
    outside = others_outside i s m v;
  }

  releases : (m : Mutex) (s : Threads T) → s.mutex ≡ m → IsExclusive s → Releases s
  unfolding repeat run
  releases (Mutex.by_producer i) s e v =
      owner_Releases i (s.producer i) s refl (v.producers i ∙ ap (held_by i) e ∙ ==_self i) e v
  releases Mutex.free s e v = record {
    owner = 0;
    turns = 0;
    few = omega arith;
    final = s;
    goes = refl;
    outside = λ i. v.producers i ∙ ap (held_by i) e;
  }
  releases Mutex.by_runner s e v = record {
    owner = 0;
    turns = 0;
    few = omega arith;
    final = s;
    goes = refl;
    outside = λ i. v.producers i ∙ ap (held_by i) e;
  }

-- Whatever steps the threads have made, in any order: at most two steps of one thread in `enqueue_work`
-- unlock the mutex if such a thread holds it; from then the runner alone, whatever it was doing, runs
-- every task that was enqueued, in at most seven steps more than there are tasks that have not run, is
-- never made to wait, returns from `execute` and leaves the queue empty. So the threads never deadlock.
pub run-Drains :
    {T : Type 0} (ms : List (Move T)) {s : Threads T}
    → run ms started ≡ some s
    → (r : Releases s) × Drains (length (unfinished r.final) + 7) r.final.enqueued r.final
run-Drains ms {s} e =
    let r = releases s.mutex s refl (run-IsExclusive ms e) in
    (
      r,
      quiet-Drains (ms ++ repeat r.turns (Move.produces r.owner))
          (run-append ms (repeat r.turns (Move.produces r.owner)) started
            ∙ ap (λ o. then_run o (run (repeat r.turns (Move.produces r.owner)))) e
            ∙ r.goes)
          r.outside,
    )
