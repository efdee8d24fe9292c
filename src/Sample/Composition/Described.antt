-- ===== src/Sample/Composition/Described.antt =====
-- What `describe_dependencies` of component_base.h says of interfaces, whatever its look-ups find.
use minicomps.Prelude.{
  ℕ, ◌≡◌, refl, ap, ◌∙◌, List, [], ◌∷◌, ◌++◌, map, ok, pure, ◌>>=◌, arith, update,
}
use minicomps.Component.{Component, Direction, exports, imports, DependencyInfo}
use minicomps.World.{World, components}
use minicomps.Ref.Mono
use minicomps.Ref.Mono.{expired}
use minicomps.Ref.Poly
use minicomps.Query.Async.{lookup_mono}
use minicomps.Query.Event.{lookup_poly}
use minicomps.Query.Interface.Reference.{lookup, force_resolve, create_dependency_info}
use minicomps.Base.Lifecycle.{
  describe_mono, describe_poly, describe_interfaces, describe_dependencies,
}
use minicomps.Sample.Composition.{interfaces_of}
use minicomps.Sample.Composition.Kept.{Same, Gives, Gives-and_then, Any, lookup-Gives}

-- Descriptions of references to single messages name no interface.
abbrev NoInterface : List DependencyInfo → Type 0
NoInterface l = (d : Direction) → interfaces_of d l ≡ []

describe_mono-Gives :
    (is : List ℕ) (w v : World) → Same w v → Gives w NoInterface (describe_mono is v)
unfolding describe_mono lookup_mono interfaces_of Mono.create_dependency_info
describe_mono-Gives [] w v s = (λ d. refl, s)
describe_mono-Gives (i ∷ is) w v s =
    let (p, r, b) = Mono.lookup (components v) v.broker (v.mono_ref i) in
    let v1 = record v { broker = b; mono_ref = update v.mono_ref i r } in
    let info = Mono.create_dependency_info (v1.mono_ref i) in
    Gives-and_then w NoInterface NoInterface (describe_mono is v1) (λ infos. pure (info ∷ infos))
      (describe_mono-Gives is w v1 (record { component = s.component; msg = s.msg }))
      (λ l u p t. (p, t))

describe_poly-Gives :
    (is : List ℕ) (w v : World) → Same w v → Gives w NoInterface (describe_poly is v)
unfolding describe_poly lookup_poly interfaces_of Poly.create_dependency_info
describe_poly-Gives [] w v s = (λ d. refl, s)
describe_poly-Gives (i ∷ is) w v s =
    let (r, b) = Poly.lookup (components v) v.broker (v.poly_ref i) in
    let v1 = record v { broker = b; poly_ref = update v.poly_ref i r } in
    let info = Poly.create_dependency_info (v1.poly_ref i) in
    Gives-and_then w NoInterface NoInterface (describe_poly is v1) (λ infos. pure (info ∷ infos))
      (describe_poly-Gives is w v1 (record { component = s.component; msg = s.msg }))
      (λ l u p t. (p, t))

-- Those of references to interfaces name the interfaces.
abbrev RefersTo : World → List ℕ → List DependencyInfo → Type 0
RefersTo w is l =
    (interfaces_of imports l ≡ map (λ i. (w.interface_ref i).msg) is)
    × (interfaces_of exports l ≡ [])

force_resolve-Gives : (i : ℕ) (w v : World) → Same w v → Gives w Any (force_resolve i v)
unfolding force_resolve
force_resolve-Gives i w v s =
    Gives-and_then w Any Any (lookup i v) (λ found. pure tt) (lookup-Gives i w v s)
      (λ x u t r. (tt, r))

describe_interfaces-Gives :
    (is : List ℕ) (w v : World) → Same w v → Gives w (RefersTo w is) (describe_interfaces is v)
unfolding describe_interfaces interfaces_of create_dependency_info
describe_interfaces-Gives [] w v s = ((refl, refl), s)
describe_interfaces-Gives (i ∷ is) w v s =
    Gives-and_then w Any (RefersTo w (i ∷ is)) (force_resolve i v)
      (λ found. (λ w1. ok (create_dependency_info (w1.interface_ref i)) w1) >>= λ info.
        (describe_interfaces is >>= λ infos. pure (info ∷ infos)))
      (force_resolve-Gives i w v s)
      (λ x u t r.
        Gives-and_then w (RefersTo w is) (RefersTo w (i ∷ is)) (describe_interfaces is u)
          (λ infos. pure (create_dependency_info (u.interface_ref i) ∷ infos))
          (describe_interfaces-Gives is w u r)
          (λ l u' q r'. (
            (
              ap (λ m. m ∷ interfaces_of imports l) (r.msg i)
                  ∙ ap (λ ms. (w.interface_ref i).msg ∷ ms) q.0,
              q.1,
            ),
            r',
          )))

interfaces_of-append :
    (d : Direction) (xs ys : List DependencyInfo)
    → interfaces_of d (xs ++ ys) ≡ interfaces_of d xs ++ interfaces_of d ys
unfolding interfaces_of
interfaces_of-append d [] ys = refl
interfaces_of-append d (x ∷ xs) ys = ground (arith, interfaces_of-append d xs ys)

-- The interfaces that a component has published, and those that it refers to.
abbrev pub exported : World → ℕ → List ℕ
exported w c = interfaces_of exports (w.component c).published_dependencies

abbrev pub referred : World → ℕ → List ℕ
referred w c =
    map (λ i. (w.interface_ref i).msg) (w.component c).interface_refs
    ++ interfaces_of imports (w.component c).published_dependencies

abbrev pub Describes : World → ℕ → List DependencyInfo → Type 0
Describes w c l =
    (interfaces_of imports l ≡ referred w c) × (interfaces_of exports l ≡ exported w c)

joined :
    (d : Direction) (ms ps is ds : List DependencyInfo) {ks : List ℕ}
    → NoInterface ms
    → NoInterface ps
    → interfaces_of d is ≡ ks
    → interfaces_of d (ms ++ ps ++ is ++ ds) ≡ ks ++ interfaces_of d ds
joined d ms ps is ds m p i =
    interfaces_of-append d (ms ++ ps ++ is) ds
    ∙ ap (λ l. l ++ interfaces_of d ds)
        (interfaces_of-append d (ms ++ ps) is
          ∙ ap (λ l. l ++ interfaces_of d is)
              (interfaces_of-append d ms ps ∙ ap (λ l. l ++ interfaces_of d ps) (m d) ∙ p d)
          ∙ i)

pub describe_dependencies-Gives :
    (c : ℕ) (w v : World) → Same w v → Gives w (Describes w c) (describe_dependencies c v)
unfolding describe_dependencies
describe_dependencies-Gives c w v s =
    let k = v.component c in
    let same : v.component c ≡ w.component c = ap (λ g. g c) s.component in
    let end = λ (monos polys interfaces : List DependencyInfo) (w1 : World).
      ok (monos ++ polys ++ interfaces ++ (w1.component c).published_dependencies) w1 in
    Gives-and_then w NoInterface (Describes w c) (describe_mono k.mono_refs v)
      (λ monos.
        (describe_poly k.poly_refs >>= λ polys.
        (describe_interfaces k.interface_refs >>= end monos polys)))
      (describe_mono-Gives k.mono_refs w v s)
      (λ ms v1 m s1.
        Gives-and_then w NoInterface (Describes w c) (describe_poly k.poly_refs v1)
          (λ polys. (describe_interfaces k.interface_refs >>= end ms polys))
          (describe_poly-Gives k.poly_refs w v1 s1)
          (λ ps v2 p s2.
            Gives-and_then w (RefersTo w k.interface_refs) (Describes w c)
              (describe_interfaces k.interface_refs v2) (end ms ps)
              (describe_interfaces-Gives k.interface_refs w v2 s2)
              (λ is v3 i s3.
                let ds = (v3.component c).published_dependencies in
                let now = ap (λ g. (g c).published_dependencies) s3.component in
                (
                  (
                    joined imports ms ps is ds m p (
                          i.0
                          ∙ ap
                              (λ (z : Component).
                                map (λ j. (w.interface_ref j).msg) z.interface_refs)
                              same)
                        ∙ ap
                            (λ l.
                              map (λ j. (w.interface_ref j).msg) (w.component c).interface_refs
                              ++ interfaces_of imports l)
                            now,
                    joined exports ms ps is ds m p i.1 ∙ ap (interfaces_of exports) now,
                  ),
                  s3,
                ))))
