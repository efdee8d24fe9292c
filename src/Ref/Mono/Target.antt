-- ===== src/Ref/Mono/Target.antt =====
-- Which handler `mono_ref_base::lookup` of mono_ref.h finds, and what its cache does to the answer.
use minicomps.Prelude.{
  ℕ, ◌≡◌, refl, ap, ◌∙◌, Bool, false, not, ◌&&◌, Option, none, some, List, [], ◌∷◌, arith,
  if◌then◌else◌, is_some,
}
use minicomps.Broker
use minicomps.Broker.{Broker}
use minicomps.Broker.Table.{receivers}
use minicomps.Broker.Handles.{lookup-lock}
use minicomps.Ref.Mono.{
  Kind, MonoRef, Components, lookup_handler, expired, resolve_receiver, resolve, lookup,
}

-- The handler that a message has: that of its only receiver, if this lives.
abbrev pub only_handler : Components → Kind → ℕ → List ℕ → Option ℕ
only_handler env kind msg [] = none
only_handler env kind msg (c ∷ []) =
    if env.alive c then lookup_handler kind (env.component c) msg else none
only_handler env kind msg (c ∷ d ∷ more) = none

unfoldable pub target : Components → Broker → Kind → ℕ → Option ℕ
target env b kind msg = only_handler env kind msg (receivers b msg)

-- The test by which `lookup` trusts its cache.
abbrev pub is_cached : Broker → MonoRef → Bool
is_cached b r = is_some r.handler && not (expired b r.receivers)

resolve-target :
    (env : Components) (r : MonoRef) (xs : List ℕ)
    → (resolve env r (some xs)).0 ≡ only_handler env r.kind r.msg xs
unfolding resolve resolve_receiver
resolve-target env r [] = refl
resolve-target env r (c ∷ []) = ground arith
resolve-target env r (c ∷ d ∷ more) = refl

-- What `lookup` does when it does not trust its cache.
pub lookup-resolve :
    (env : Components) (b : Broker) (r : MonoRef)
    → is_cached b r ≡ false
    → lookup env b r ≡ (
        let q =
          resolve env
            (record r { receivers = some (Broker.lookup b r.msg).0 })
            (some (receivers b r.msg)) in
        (q.0, q.1, (Broker.lookup b r.msg).1))
unfolding lookup
lookup-resolve env b r e = rw (e, lookup-lock b r.msg)

-- A reference that does not trust its cache finds the handler of the message's only receiver, and
-- nothing if there is no receiver, more than one, a dead one, or one without a handler.
pub lookup-target :
    (env : Components) (b : Broker) (r : MonoRef)
    → is_cached b r ≡ false
    → (lookup env b r).0 ≡ target env b r.kind r.msg
unfolding target
lookup-target env b r e =
    ap (λ q. q.0) (lookup-resolve env b r e)
    ∙ resolve-target env (record r { receivers = some (Broker.lookup b r.msg).0 })
        (receivers b r.msg)
