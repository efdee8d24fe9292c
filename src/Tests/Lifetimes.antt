-- ===== src/Tests/Lifetimes.antt =====
-- Three lifetime objects; the objects 1 and 2 share a block.
use minicomps.Prelude.{ℕ, ◌≡◌, refl, true, false, not, Option, none, some, [], ◌∷◌, arith}
use minicomps.Prelude
use minicomps.Lifetime.{Lifetimes, reset, create_weak_ptr, expired}
use minicomps.Prelude
use minicomps.Lifetime.Expiry.{IsValid, owned_by_other, expired-reset}

abbrev shared : Lifetimes
shared = record { objects = (1, 0) ∷ (2, 0) ∷ (3, 1) ∷ []; next_token = 2 }

shared-IsValid : IsValid shared
unfolding Prelude.find
shared-IsValid = record {
  distinct = (refl, (refl, (refl, tt)));
  below = (omega arith, (omega arith, (omega arith, tt)));
}

expired-reset_example :
    (expired (reset 3 shared) (some 1) ≡ not (owned_by_other 3 1 shared.objects))
    × (expired (reset 3 shared) (create_weak_ptr (reset 3 shared) 3) ≡ false)
expired-reset_example = expired-reset 3 1 shared shared-IsValid (omega arith)
