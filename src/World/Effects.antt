-- ===== src/World/Effects.antt =====
-- The effects of World.antt as changes of single fields.
use minicomps.Prelude.{
  ℕ, ◌≡◌, refl, sym, ap, Option, none, some, List, [], ◌∷◌, ◌++◌, append-nil, ==_self,
}
use minicomps.Callback.{Task}
use minicomps.Executor.{Executor, enqueue_work}
use minicomps.World.{World, Entry, notify, note, enqueue}

-- What a listener hears of one notification.
abbrev pub heard : Option ℕ → (ℕ → Entry) → List Entry
heard none e = []
heard (some l) e = e l ∷ []

abbrev pub with_log : World → List Entry → World
with_log w es = record w { log = w.log ++ es }

pub notify-log : (l : Option ℕ) (e : ℕ → Entry) (w : World) → notify l e w ≡ with_log w (heard l e)
unfolding notify note
notify-log none e w = ap (λ es. record w { log = es }) (sym (append-nil w.log))
notify-log (some l) e w = refl

-- A queue with tasks added behind the ones that wait.
abbrev pub with_work : Executor Task → List Task → Executor Task
with_work e ts = record e { work_items = e.work_items ++ ts }

pub enqueue-executor :
    (x : ℕ) (t : Task) (w : World) → (enqueue x t w).executor x ≡ with_work (w.executor x) (t ∷ [])
unfolding enqueue enqueue_work
enqueue-executor x t w = rw (==_self x)
