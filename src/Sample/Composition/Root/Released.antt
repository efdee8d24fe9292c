-- ===== src/Sample/Composition/Root/Released.antt =====
-- What composition_root.cpp leaves in the broker once it is destroyed.
use minicomps.Prelude.{
  ℕ, ◌≡◌, refl, sym, ap, ◌∙◌, Bool, false, not, ◌&&◌, List, [], ◌∷◌, map, keep, ok, abort,
  undefined, Outcome, Cmd, and_then, modify, arith, subst, ◌==◌,
}
use minicomps.Broker.Table.{receivers, without, disassociate_everything-receivers}
use minicomps.World.{World, set_component}
use minicomps.Base.Lifecycle.{publish_dependencies, unpublish_dependencies}
use minicomps.Base.Lifecycle.RoundTrip.{Keeps, publish_dependencies-Keeps}
use minicomps.Base.Publish.Offers.{Offer, publish, publish-Offered}
use minicomps.Sample.Composition.Root.{Part, publish_part, construct, destroy}

-- The receivers without some components, and without those that are dead.
abbrev pub without_all : (ℕ → Bool) → List ℕ → List ℕ → List ℕ
without_all alive [] xs = xs
without_all alive (c ∷ cs) xs = without_all alive cs (without alive c xs)

keep-keep_comm : (p q : ℕ → Bool) (xs : List ℕ) → keep p (keep q xs) ≡ keep q (keep p xs)
keep-keep_comm p q [] = refl
keep-keep_comm p q (x ∷ xs) = ground (arith, keep-keep_comm p q xs)

without_all-without :
    (alive : ℕ → Bool) (cs : List ℕ) (c : ℕ) (xs : List ℕ)
    → without_all alive cs (without alive c xs) ≡ without alive c (without_all alive cs xs)
without_all-without alive [] c xs = refl
without_all-without alive (d ∷ cs) c xs =
    ap (without_all alive cs)
      (keep-keep_comm (λ r. alive r && not (r == d)) (λ r. alive r && not (r == c)) xs)
    ∙ without_all-without alive cs c (without alive d xs)

-- Components that publish what they offer.
abbrev pub parts : List (ℕ × List Offer) → List Part
parts [] = []
parts ((c, os) ∷ ps) = record { component = c; publish = modify (publish c os) } ∷ parts ps

abbrev pub names : List (ℕ × List Offer) → List ℕ
names = map (λ p. p.0)

-- If the run ends normally, nothing but the components themselves has become a receiver.
abbrev Builds : World → List ℕ → Outcome World (Unit {0}) → Type 0
Builds w cs (ok x v) =
    (v.alive ≡ w.alive)
    × ((n : ℕ)
        → without_all w.alive cs (receivers v.broker n)
          ≡ without_all w.alive cs (receivers w.broker n))
Builds w cs abort = Unit {0}
Builds w cs undefined = Unit {0}

Keeps-Builds :
    (c : ℕ) (os : List Offer) (w : World) (o : Outcome World (Unit {0}))
    → Keeps (publish c os w) o
    → Builds w (c ∷ []) o
Keeps-Builds c os w (ok x v) (b, a) =
    let p = publish-Offered c os w in
    (a ∙ p.alive, λ n. ap (λ d. without w.alive c (receivers d n)) b ∙ p.listed n)
Keeps-Builds c os w abort k = tt
Keeps-Builds c os w undefined k = tt

publish_part-Builds :
    (c : ℕ) (os : List Offer) (w : World)
    → Builds w (c ∷ []) (publish_part (record { component = c; publish = modify (publish c os) }) w)
unfolding publish_part set_component
publish_part-Builds c os w =
    let v = set_component c (record (w.component c) { allow_direct_call_async = false }) w in
    Keeps-Builds c os v (publish_dependencies c (modify (publish c os)) v)
      (publish_dependencies-Keeps c os v)

Builds-trans :
    (w v : World) (c : ℕ) (cs : List ℕ) (o : Outcome World (Unit {0}))
    → v.alive ≡ w.alive
    → ((n : ℕ)
        → without w.alive c (receivers v.broker n) ≡ without w.alive c (receivers w.broker n))
    → Builds v cs o
    → Builds w (c ∷ cs) o
Builds-trans w v c cs (ok x u) a l (b, m) = (
  b ∙ a,
  λ n.
      without_all-without w.alive cs c (receivers u.broker n)
      ∙ ap (without w.alive c) (
          subst
            (λ z. without_all z cs (receivers u.broker n) ≡ without_all z cs (receivers v.broker n))
            a (m n))
      ∙ sym (without_all-without w.alive cs c (receivers v.broker n))
      ∙ ap (without_all w.alive cs) (l n),
)
Builds-trans w v c cs abort a l k = tt
Builds-trans w v c cs undefined a l k = tt

Builds-and_then :
    (w : World) (c : ℕ) (cs : List ℕ) (o : Outcome World (Unit {0})) (f : Cmd World (Unit {0}))
    → Builds w (c ∷ []) o
    → ((v : World) → Builds v cs (f v))
    → Builds w (c ∷ cs) (and_then o (λ _. f))
Builds-and_then w c cs (ok x v) f (a, l) k = Builds-trans w v c cs (f v) a l (k v)
Builds-and_then w c cs abort f h k = tt
Builds-and_then w c cs undefined f h k = tt

construct-Builds :
    (ps : List (ℕ × List Offer)) (w : World) → Builds w (names ps) (construct (parts ps) w)
unfolding construct
construct-Builds [] w = (refl, λ n. refl)
construct-Builds ((c, os) ∷ ps) w =
    Builds-and_then w c (names ps)
      (publish_part (record { component = c; publish = modify (publish c os) }) w)
      (construct (parts ps)) (publish_part-Builds c os w) (λ v. construct-Builds ps v)

destroy-without_all :
    (ps : List (ℕ × List Offer)) (w : World)
    → (w' : World) × (destroy (parts ps) w ≡ ok tt w')
      × ((n : ℕ) → receivers w'.broker n ≡ without_all w.alive (names ps) (receivers w.broker n))
unfolding destroy unpublish_dependencies set_component
destroy-without_all [] w = (w, refl, λ n. refl)
destroy-without_all ((c, os) ∷ ps) w =
    let (b, done, listed) = disassociate_everything-receivers w.alive w.broker c in
    let v =
      set_component c (record (w.component c) { published = false }) (record w { broker = b }) in
    let (w', ran, rest) = destroy-without_all ps v in
    (
      w',
      rw (unpublish_dependencies, done) ran,
      λ n. rest n ∙ ap (without_all w.alive (names ps)) (listed n),
    )

-- The root publishes any number of components, each of which offers any queries, interfaces and
-- subscriptions. If its constructor ends normally, its destructor does so too, and then every message
-- has the receivers that it had before there was a root, but for those that are dead and the root's
-- own components.
pub construct-destroy :
    (ps : List (ℕ × List Offer)) (w : World) {v : World}
    → construct (parts ps) w ≡ ok tt v
    → (w' : World) × (destroy (parts ps) v ≡ ok tt w')
      × ((n : ℕ) → receivers w'.broker n ≡ without_all w.alive (names ps) (receivers w.broker n))
construct-destroy ps w {v} e =
    let (a, built) = subst (Builds w (names ps)) e (construct-Builds ps w) in
    let (w', ran, listed) = destroy-without_all ps v in
    (w', ran, λ n. listed n ∙ ap (λ z. without_all z (names ps) (receivers v.broker n)) a ∙ built n)
