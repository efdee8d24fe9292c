-- ===== src/Base/Lifecycle/RoundTrip.antt =====
-- Publishing a component and withdrawing it again, in component_base.h.
use minicomps.Prelude.{
  ◌>>◌, ℕ, ◌≡◌, refl, ap, ◌∙◌, true, false, none, some, List, [], ◌∷◌, ok, modify, ==_self, subst,
  ◌+◌, abort, undefined, Outcome, Cmd, and_then, pure, Option-cases, inl, inr,
}
use minicomps.Broker.Table.{receivers, without, disassociate_everything-receivers}
use minicomps.World.{World, set_component}
use minicomps.Query.Interface.Shared.{set_query}
use minicomps.Base.Lifecycle.{
  publish_dependencies, unpublish_dependencies, run_checks, check_interface,
}
use minicomps.Lifetime.{create_weak_ptr}
use minicomps.Query.Interface.{copy_query}
use minicomps.Query.Interface.Reference.{copy_queries, set_current, destroy_proxy}
use minicomps.Base.Publish.Offers.{Offer, publish, publish-Offered}

-- What a run leaves as it was, if it ends normally.
abbrev pub Keeps : {A : Type 0} → World → Outcome World A → Type 0
Keeps w (ok x w') = (w'.broker ≡ w.broker) × (w'.alive ≡ w.alive)
Keeps w abort = Unit {0}
Keeps w undefined = Unit {0}

Keeps-trans :
    {A : Type 0} (w v : World) (o : Outcome World A)
    → (v.broker ≡ w.broker) × (v.alive ≡ w.alive)
    → Keeps v o
    → Keeps w o
Keeps-trans w v (ok x u) h k = (k.0 ∙ h.0, k.1 ∙ h.1)
Keeps-trans w v abort h k = tt
Keeps-trans w v undefined h k = tt

Keeps-and_then :
    {A B : Type 0} (w : World) (o : Outcome World A) (f : A → Cmd World B)
    → Keeps w o
    → ((x : A) (v : World) → Keeps v (f x v))
    → Keeps w (and_then o f)
Keeps-and_then w (ok x v) f h k = Keeps-trans w v (f x v) h (k x v)
Keeps-and_then w abort f h k = tt
Keeps-and_then w undefined f h k = tt

copy_queries-Keeps : (qs : List ℕ) (w : World) → Keeps w (copy_queries qs w)
unfolding set_query copy_queries
copy_queries-Keeps [] w = (refl, refl)
copy_queries-Keeps (q ∷ qs) w = elim (Option-cases (copy_query w q)) [
  | inl e ↦ rw (copy_queries, e) tt
  | inr (q', e) ↦
      (let v = set_query w.next_if_query q' (record w { next_if_query = w.next_if_query + 1 }) in
        rw (copy_queries, e)
          (Keeps-and_then v (copy_queries qs v) (λ more. pure (w.next_if_query ∷ more))
            (copy_queries-Keeps qs v) (λ more u. (refl, refl))))
]

check_interface-Keeps : (c i : ℕ) (w : World) → Keeps w (check_interface c i w)
unfolding check_interface set_current destroy_proxy
check_interface-Keeps c i w =
    let v = set_current (some c) (create_weak_ptr w.lifetimes (w.component c).default_lifetime) w in
    Keeps-and_then v (copy_queries (w.interface i) v)
      (λ view. modify (set_current none none) >> modify (destroy_proxy (some view)))
      (copy_queries-Keeps (w.interface i) v) (λ x u. (refl, refl))

run_checks-Keeps : (c : ℕ) (is : List ℕ) (w : World) → Keeps w (run_checks c is w)
unfolding run_checks
run_checks-Keeps c [] w = (refl, refl)
run_checks-Keeps c (i ∷ is) w =
    Keeps-and_then w (check_interface c i w) (λ _. run_checks c is) (check_interface-Keeps c i w)
      (λ x u. run_checks-Keeps c is u)

pub publish_dependencies-Keeps :
    (c : ℕ) (os : List Offer) (w : World)
    → Keeps (publish c os w) (publish_dependencies c (modify (publish c os)) w)
unfolding publish_dependencies set_component
publish_dependencies-Keeps c os w =
    let v =
      set_component c (record ((publish c os w).component c) { published = true })
        (publish c os w) in
    run_checks-Keeps c (v.component c).post_publish_checks v

-- A component publishes queries, interfaces and subscriptions to events, any number of them, and is
-- withdrawn. If publishing ends normally, that is if every query of the interfaces has a handler, then
-- withdrawing does not abort, and every message is left with the receivers that it had before, but for
-- those that are dead and the component itself.
publish_dependencies-unpublish_dependencies :
    (c : ℕ) (os : List Offer) (w : World) {v : World}
    → publish_dependencies c (modify (publish c os)) w ≡ ok tt v
    → (w' : World) × (unpublish_dependencies c v ≡ ok tt w')
      × ((w'.component c).published ≡ false)
      × ((n : ℕ) → receivers w'.broker n ≡ without w.alive c (receivers w.broker n))
unfolding set_component unpublish_dependencies
publish_dependencies-unpublish_dependencies c os w {v} e =
    let (kb, ka) = subst (Keeps (publish c os w)) e (publish_dependencies-Keeps c os w) in
    let p = publish-Offered c os w in
    let (b, done, listed) = disassociate_everything-receivers v.alive v.broker c in
    (
      set_component c (record (v.component c) { published = false }) (record v { broker = b }),
      rw (unpublish_dependencies, done) refl,
      rw (==_self c) refl,
      λ n.
          listed n
          ∙ ap (λ alive. without alive c (receivers v.broker n)) (ka ∙ p.alive)
          ∙ ap (λ d. without w.alive c (receivers d n)) kb
          ∙ p.listed n,
    )
