-- ===== src/Sample/Composition/Kept.antt =====
-- What a look-up of an interface leaves of the world: interface_ref.h.
use minicomps.Prelude.{
  ℕ, ◌≡◌, refl, ◌∙◌, Option, none, some, List, [], ◌∷◌, ok, abort, undefined, Outcome, Cmd,
  and_then, pure, arith, Option-cases, Bool-cases, inl, inr, ◌+◌, not, modify, ◌>>◌, ◌&&◌, is_some,
}
use minicomps.Broker
use minicomps.Component.{lookup_interface}
use minicomps.World.{World, InterfaceRef}
use minicomps.Ref.Mono.{expired}
use minicomps.Query.Interface.{copy_query}
use minicomps.Query.Interface.Shared.{set_query}
use minicomps.Query.Interface.Reference.{
  set_reference, set_proxy, destroy_proxy, copy_queries, set_current, make_proxy, resolve_receiver,
  resolve, lookup,
}

-- No component changes, and no reference gets another message.
pub record Same (w v : World) : Type 0 where
  pub component : v.component ≡ w.component
  pub msg : (i : ℕ) → (v.interface_ref i).msg ≡ (w.interface_ref i).msg

pub Same-refl : (w : World) → Same w w
Same-refl w = record { component = refl; msg = λ i. refl }

pub Same-trans : {w v u : World} → Same w v → Same v u → Same w u
Same-trans s t = record { component = t.component ∙ s.component; msg = λ i. t.msg i ∙ s.msg i }

-- A run from a world like `w`: if it ends, its answer is as said and the world is like `w`.
abbrev pub Gives : {A : Type 0} → World → (A → Type 0) → Outcome World A → Type 0
Gives w P (ok x v) = P x × Same w v
Gives w P abort = Unit {0}
Gives w P undefined = Unit {0}

pub Gives-and_then :
    {A B : Type 0} (w : World) (P : A → Type 0) (Q : B → Type 0) (o : Outcome World A)
    (f : A → Cmd World B)
    → Gives w P o
    → ((x : A) (v : World) → P x → Same w v → Gives w Q (f x v))
    → Gives w Q (and_then o f)
Gives-and_then w P Q (ok x v) f (p, s) k = k x v p s
Gives-and_then w P Q abort f h k = tt
Gives-and_then w P Q undefined f h k = tt

abbrev pub Any : {A : Type 0} → A → Type 0
Any x = Unit {0}

copy_queries-Gives : (qs : List ℕ) (w v : World) → Same w v → Gives w Any (copy_queries qs v)
unfolding set_query copy_queries
copy_queries-Gives [] w v s = (tt, s)
copy_queries-Gives (q ∷ qs) w v s = elim (Option-cases (copy_query v q)) [
  | inl e ↦ rw (copy_queries, e) tt
  | inr (q', e) ↦
      (let u = set_query v.next_if_query q' (record v { next_if_query = v.next_if_query + 1 }) in
        rw (copy_queries, e)
          (Gives-and_then w Any Any (copy_queries qs u) (λ more. pure (v.next_if_query ∷ more))
            (copy_queries-Gives qs w u (record { component = s.component; msg = s.msg }))
            (λ more u t r. (tt, r))))
]

set_reference-Same :
    (i : ℕ) (r : InterfaceRef) (w v : World)
    → r.msg ≡ (v.interface_ref i).msg
    → Same w v
    → Same w (set_reference i r v)
unfolding set_reference
set_reference-Same i r w v e s = record {
  component = s.component;
  msg = λ j. ground (arith, e, s.msg j);
}

make_proxy-Gives : (i j : ℕ) (w v : World) → Same w v → Gives w Any (make_proxy i j v)
unfolding make_proxy set_current set_proxy destroy_proxy
make_proxy-Gives i j w v s =
    let v0 =
      set_current (some (v.interface_ref i).owning_component) (v.interface_ref i).lifetime v in
    Gives-and_then w Any Any (copy_queries (v.interface j) v0)
      (λ qs. modify (set_proxy i qs) >> (modify (set_current none none) >> pure (some qs)))
      (copy_queries-Gives (v.interface j) w v0 (record { component = s.component; msg = s.msg }))
      (λ qs u t r.
        let k =
          set_reference-Same i (record (u.interface_ref i) { local_interface_proxy = some qs }) w u
            refl r in
        (tt, record { component = k.component; msg = k.msg }))

resolve_receiver-Gives : (i c : ℕ) (w v : World) → Same w v → Gives w Any (resolve_receiver i c v)
unfolding resolve_receiver
resolve_receiver-Gives i c w v s = elim (Bool-cases (v.alive c)) [
  | inl a ↦ elim (Option-cases (lookup_interface (v.component c) (v.interface_ref i).msg)) [
    | inl e ↦
        rw (resolve_receiver, a, e)
          (tt, set_reference-Same i (record (v.interface_ref i) { receiver = some c }) w v refl s)
    | inr (j, e) ↦
        rw (resolve_receiver, a, e)
          (make_proxy-Gives i j w
            (set_reference i (record (v.interface_ref i) { receiver = some c }) v)
            (set_reference-Same i (record (v.interface_ref i) { receiver = some c }) w v refl s))
  ]
  | inr a ↦
      rw (resolve_receiver, a)
        (tt, set_reference-Same i (record (v.interface_ref i) { receiver = none }) w v refl s)
]

resolve-Gives :
    (i : ℕ) (rs : Option (List ℕ)) (w v : World) → Same w v → Gives w Any (resolve i rs v)
unfolding resolve
resolve-Gives i none w v s = (tt, s)
resolve-Gives i (some []) w v s = (tt, s)
resolve-Gives i (some (c ∷ [])) w v s = resolve_receiver-Gives i c w v s
resolve-Gives i (some (c ∷ d ∷ more)) w v s = (tt, s)

pub lookup-Gives : (i : ℕ) (w v : World) → Same w v → Gives w Any (lookup i v)
unfolding lookup
lookup-Gives i w v s =
    elim (Bool-cases (
      is_some (v.interface_ref i).local_interface_proxy
      && not (expired v.broker (v.interface_ref i).resolved_receivers))) [
        | inl e ↦ rw (lookup, e) (tt, s)
        | inr e ↦
            (let h = (Broker.lookup v.broker (v.interface_ref i).msg).0 in
              let b = (Broker.lookup v.broker (v.interface_ref i).msg).1 in
              let v1 = record v { broker = b } in
              let r = record (v.interface_ref i) { resolved_receivers = some h } in
              rw (lookup, e)
                (resolve-Gives i (Broker.lock b h) w (set_reference i r v1) (
                  set_reference-Same i r w v1 refl
                    (record { component = s.component; msg = s.msg }))))
      ]
