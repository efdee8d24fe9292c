-- ===== src/Query/Loop/Rounds.antt =====
-- What one call of `execute` in executor.h runs, and what it leaves for the next.
use minicomps.Prelude.{
  ℕ, ◌≡◌, refl, sym, ap, ◌∙◌, List, [], ◌∷◌, ◌++◌, map, ok, ==_self, append-nil, append_assoc,
}
use minicomps.Executor.{Executor, swap_buffers, clear_back_buffer}
use minicomps.Callback.{Task}
use minicomps.World.{World, UserCode, enqueue}
use minicomps.World.Effects.{with_work, enqueue-executor}
use minicomps.Query.Loop.{run_task, run_tasks, on_executor, execute}

-- Tasks of the program by their ids.
abbrev pub works : List ℕ → List Task
works = map Task.work

-- The tasks are enqueued one after the other.
pub enqueue_all : ℕ → List ℕ → World → World
enqueue_all x [] w = w
enqueue_all x (k ∷ ks) w = enqueue_all x ks (enqueue x (Task.work k) w)

abbrev pub spawned : (ℕ → List ℕ) → List ℕ → List ℕ
spawned spawn [] = []
spawned spawn (k ∷ ks) = spawn k ++ spawned spawn ks

-- Each task of the program does nothing but enqueue tasks on the executor that runs it.
abbrev pub Spawns : UserCode → ℕ → (ℕ → List ℕ) → Type 0
Spawns u x spawn = (k : ℕ) (w : World) → u.work k w ≡ ok tt (enqueue_all x (spawn k) w)

enqueue_all-executor :
    (x : ℕ) (ks : List ℕ) (w : World)
    → (enqueue_all x ks w).executor x ≡ with_work (w.executor x) (works ks)
unfolding enqueue_all
enqueue_all-executor x [] w =
    ap (λ l. record (w.executor x) { work_items = l }) (sym (append-nil (w.executor x).work_items))
enqueue_all-executor x (k ∷ ks) w =
    enqueue_all-executor x ks (enqueue x (Task.work k) w)
    ∙ ap (λ e. with_work e (works ks)) (enqueue-executor x (Task.work k) w)
    ∙ ap (λ l. record (w.executor x) { work_items = l })
        (append_assoc (w.executor x).work_items (Task.work k ∷ []) (works ks))

enqueue_all-append :
    (x : ℕ) (js ks : List ℕ) (w : World)
    → enqueue_all x ks (enqueue_all x js w) ≡ enqueue_all x (js ++ ks) w
unfolding enqueue_all
enqueue_all-append x [] ks w = refl
enqueue_all-append x (j ∷ js) ks w = enqueue_all-append x js ks (enqueue x (Task.work j) w)

run_tasks-spawned :
    (u : UserCode) (x : ℕ) (spawn : ℕ → List ℕ) (ks : List ℕ) (w : World)
    → Spawns u x spawn
    → run_tasks u (works ks) w ≡ ok tt (enqueue_all x (spawned spawn ks) w)
unfolding run_tasks run_task
run_tasks-spawned u x spawn [] w s = ap (ok tt) (unfold enqueue_all in refl)
run_tasks-spawned u x spawn (k ∷ ks) w s = rw (s k w) (
    run_tasks-spawned u x spawn ks (enqueue_all x (spawn k) w) s
    ∙ ap (ok tt) (enqueue_all-append x (spawn k) (spawned spawn ks) w))

pub on_executor-executor :
    (x : ℕ) (f : Executor Task → Executor Task) (w : World)
    → (on_executor x f w).executor x ≡ f (w.executor x)
unfolding on_executor
on_executor-executor x f w = rw (==_self x)

pub swap-full :
    (ts : List Task)
    → swap_buffers (record { work_items = ts; back_buffer = [] })
      ≡ record { work_items = []; back_buffer = ts }
unfolding swap_buffers
swap-full ts = refl

clear-done :
    (e : Executor Task) (ts : List Task)
    → e ≡ record { work_items = []; back_buffer = ts }
    → (us : List Task)
    → clear_back_buffer (with_work e us) ≡ record { work_items = us; back_buffer = [] }
unfolding clear_back_buffer
clear-done e ts h us =
    ap (λ (l : List Task). record { work_items = l ++ us; back_buffer = [] })
      (ap (λ (d : Executor Task). d.work_items) h)

-- If the tasks of the program end and do nothing but enqueue further ones on the executor that runs them,
-- only such tasks wait on it, and no earlier round is unfinished, one call of `execute` runs each task that waited before the call once, in order, and
-- none of those that they enqueue: these are what then waits, in the order of enqueueing.
pub execute-spawned :
    (u : UserCode) (x : ℕ) (spawn : ℕ → List ℕ) (ks : List ℕ) (w : World)
    → Spawns u x spawn
    → w.executor x ≡ record { work_items = works ks; back_buffer = [] }
    → (w' : World) × (execute u x w ≡ ok tt w')
      × (w'.executor x ≡ record { work_items = works (spawned spawn ks); back_buffer = [] })
unfolding execute
execute-spawned u x spawn ks w s e = (
  on_executor x clear_back_buffer done,
  rw (ap (λ (d : Executor Task). d.back_buffer) ready, run_tasks-spawned u x spawn ks swapped s),
  on_executor-executor x clear_back_buffer done
      ∙ ap clear_back_buffer (enqueue_all-executor x (spawned spawn ks) swapped)
      ∙ clear-done (swapped.executor x) (works ks) ready (works (spawned spawn ks)),
)
  where
    swapped : World
    swapped = on_executor x swap_buffers w

    done : World
    done = enqueue_all x (spawned spawn ks) swapped

    ready : swapped.executor x ≡ record { work_items = []; back_buffer = works ks }
    ready = on_executor-executor x swap_buffers w ∙ ap swap_buffers e ∙ swap-full (works ks)
