-- ===== src/Tests/Histories.antt =====
-- Component 2 publishes handler 3 for message 7, puts the filters 4 and 5 on it, and publishes handler 6
-- in its place; component 1 publishes a synchronous query for the same message.
use minicomps.Prelude.{refl, true, none, List, [], ◌∷◌, find}
use minicomps.Component
use minicomps.Base.Publish.Offers.{Offer}
use minicomps.Base.Publish.Ownership.{Slot}
use minicomps.Base.Publish.History.{
  Change, run_changes, EndsAs, Resolves, HasNoHandlers, run_changes-Resolves,
}
use minicomps.Tests.Worlds.{start}

abbrev changes : List Change
changes =
    Change.offers 2 (Offer.async_query 7 3 none)
    ∷ Change.filters 2 7 4
    ∷ Change.filters 2 7 5
    ∷ Change.offers 1 (Offer.sync_query 7 8)
    ∷ Change.offers 2 (Offer.async_query 7 6 none)
    ∷ Change.filters 2 7 4
    ∷ []

start-HasNoHandlers : HasNoHandlers start
unfolding Component.new find
start-HasNoHandlers (Slot.sync_slot c m) = refl
start-HasNoHandlers (Slot.async_slot c m) = refl

run_changes-Resolves_example : EndsAs Resolves true (run_changes changes start)
run_changes-Resolves_example = run_changes-Resolves changes start start-HasNoHandlers
