-- ===== src/Tests/Rounds.antt =====
-- Tasks that enqueue one successor each.
use minicomps.Prelude.{ℕ, ◌+◌, ◌≡◌, refl, [], ◌∷◌, List, ok, update}
use minicomps.World.{World, UserCode}
use minicomps.Query.Loop.{execute}
use minicomps.Query.Loop.Rounds.{works, enqueue_all, execute-spawned}
use minicomps.Tests.Worlds.{start, quiet}

abbrev successor : ℕ → List ℕ
successor k = (k + 1) ∷ []

abbrev steady : UserCode
steady = record quiet { work = λ k w. ok tt (enqueue_all 1 (successor k) w) }

abbrev waiting : World
waiting = record start {
  executor = update start.executor 1 (record { work_items = works (4 ∷ 6 ∷ []); back_buffer = [] });
}

execute-spawned_example :
    (w : World) × (execute steady 1 waiting ≡ ok tt w)
    × (w.executor 1 ≡ record { work_items = works (5 ∷ 7 ∷ []); back_buffer = [] })
execute-spawned_example = execute-spawned steady 1 successor (4 ∷ 6 ∷ []) waiting (λ k w. refl) refl
