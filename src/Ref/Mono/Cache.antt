-- ===== src/Ref/Mono/Cache.antt =====
-- The cache of `mono_ref_base` in mono_ref.h over time, as the table of the broker changes.
use minicomps.Prelude.{
  ℕ, ◌≡◌, refl, ap, ◌∙◌, sym, inl, inr, true, false, not, none, some, List, [], ◌∷◌, arith, ◌==◌,
  if◌then◌else◌, any, is_some, Bool-cases,
}
use minicomps.Broker
use minicomps.Broker.{Broker, Handle}
use minicomps.Broker.Table.{receivers}
use minicomps.Broker.Handles.{Call, run, touches, IsFresh, lock-run, lookup-lock}
use minicomps.Ref.Mono.{
  MonoRef, Components, lookup_handler, expired, executor_for, resolve_receiver, resolve, lookup,
}
use minicomps.Ref.Mono.Target.{target, is_cached, lookup-resolve, lookup-target}

-- The reference is tied to component `c` with its handler `p`.
pub record IsLinked (env : Components) (c p : ℕ) (r : MonoRef) : Type 0 where
  pub handler : r.handler ≡ some p
  pub receiver : r.receiver ≡ some c
  pub live : env.alive c ≡ true
  pub handles : lookup_handler r.kind (env.component c) r.msg ≡ some p
  pub executor : r.receiver_executor ≡ some (executor_for (env.component c) r.msg)
  pub same :
      r.same_executor
      ≡ ((env.component r.component).default_executor == executor_for (env.component c) r.msg)

-- What a successful look-up leaves of the reference `r`: the reference `r1`.
pub record Links (env : Components) (b : Broker) (r : MonoRef) (p : ℕ) (r1 : MonoRef) : Type 0 where
  pub only : ℕ
  pub listed : receivers b r.msg ≡ only ∷ []
  pub linked : IsLinked env only p r1
  pub weak : r1.receivers ≡ some (Broker.lookup b r.msg).0
  pub msg : r1.msg ≡ r.msg
  pub kind : r1.kind ≡ r.kind
  pub component : r1.component ≡ r.component

-- The reference once tied to `c`.
tied : Components → MonoRef → ℕ → ℕ → MonoRef
tied env r c p = record r {
  receiver = some c;
  handler = some p;
  receiver_executor = some (executor_for (env.component c) r.msg);
  same_executor =
      (env.component r.component).default_executor == executor_for (env.component c) r.msg;
}

resolve_receiver-needs :
    (env : Components) (r : MonoRef) (c p : ℕ)
    → (resolve_receiver env r c).0 ≡ some p
    → (env.alive c ≡ true) × (lookup_handler r.kind (env.component c) r.msg ≡ some p)
unfolding resolve_receiver
resolve_receiver-needs env r c p e = ground arith

resolve_receiver-tied :
    (env : Components) (r : MonoRef) (c p : ℕ)
    → env.alive c ≡ true
    → lookup_handler r.kind (env.component c) r.msg ≡ some p
    → resolve_receiver env r c ≡ (some p, tied env r c p)
unfolding resolve_receiver tied
resolve_receiver-tied env r c p live h = ground arith

resolve-Links :
    (env : Components) (b : Broker) (r : MonoRef) (p : ℕ) (xs : List ℕ)
    → receivers b r.msg ≡ xs
    → (resolve env (record r { receivers = some (Broker.lookup b r.msg).0 }) (some xs)).0 ≡ some p
    → Links env b r p
        (resolve env (record r { receivers = some (Broker.lookup b r.msg).0 }) (some xs)).1
unfolding resolve tied
resolve-Links env b r p [] l e = absurd (cc)
resolve-Links env b r p (c ∷ []) l e =
    let r' : MonoRef = record r { receivers = some (Broker.lookup b r.msg).0 } in
    let (live, h) = resolve_receiver-needs env r' c p e in
    rw (resolve_receiver-tied env r' c p live h) (record {
      only = c;
      listed = l;
      linked = record {
        handler = refl;
        receiver = refl;
        live = live;
        handles = h;
        executor = refl;
        same = refl;
      };
      weak = refl;
      msg = refl;
      kind = refl;
      component = refl;
    })
resolve-Links env b r p (c ∷ d ∷ more) l e = absurd (cc)

-- A successful look-up that did not come from the cache ties the reference to the only receiver of
-- the message: it is alive, the answer is its handler, and the executor is the override or default
-- of that component, compared with the one of the reference's owner.
pub lookup-Links :
    (env : Components) (b : Broker) (r : MonoRef) (p : ℕ)
    → is_cached b r ≡ false
    → (lookup env b r).0 ≡ some p
    → Links env b r p (lookup env b r).1 × ((lookup env b r).2 ≡ (Broker.lookup b r.msg).1)
lookup-Links env b r p miss e =
    let q = lookup-resolve env b r miss in
    rw q (resolve-Links env b r p (receivers b r.msg) refl (sym (ap (λ t. t.0) q) ∙ e), refl)

lookup_cached :
    (env : Components) (b : Broker) (r : MonoRef)
    → is_cached b r ≡ true
    → lookup env b r ≡ (r.handler, r, b)
unfolding lookup
lookup_cached env b r e = rw e

pub expired-lock : (b : Broker) (h : Handle) → expired b (some h) ≡ not (is_some (Broker.lock b h))
unfolding expired Broker.expired
expired-lock b h = ground arith

-- After a successful look-up that did not come from the cache, and after any later calls of the
-- broker, the next look-up answers from the cache if no call replaced the receivers of the message,
-- whatever has become of the components, and looks the handler up anew if one did.
pub lookup-run :
    (env env' : Components) (b : Broker) (r : MonoRef) (p : ℕ) (cs : List Call) {b' : Broker}
    → IsFresh b
    → is_cached b r ≡ false
    → (lookup env b r).0 ≡ some p
    → run cs (lookup env b r).2 ≡ some b'
    → (lookup env' b' (lookup env b r).1).0
      ≡ (if any (touches r.msg) cs then target env' b' r.kind r.msg else some p)
lookup-run env env' b r p cs {b'} fresh miss e h = elim (Bool-cases (any (touches r.msg) cs)) [
  | inl hit ↦ rw hit (lookup-target env' b' r1 (cached ∙ ap not hit) ∙ same)
  | inr clear ↦
      rw clear
        (ap (λ t. t.0) (lookup_cached env' b' r1 (cached ∙ ap not clear)) ∙ links.0.linked.handler)
]
  where
    r1 : MonoRef
    r1 = (lookup env b r).1

    links : Links env b r p r1 × ((lookup env b r).2 ≡ (Broker.lookup b r.msg).1)
    links = lookup-Links env b r p miss e

    block :
        Broker.lock b' (Broker.lookup b r.msg).0
        ≡ (if any (touches r.msg) cs then none else some (receivers b r.msg))
    block = lock-run b r.msg cs fresh (ap (run cs) (sym links.1) ∙ h)

    cached : is_cached b' r1 ≡ not (any (touches r.msg) cs)
    cached = ground (
      arith,
      links.0.linked.handler,
      ap (expired b') links.0.weak,
      expired-lock b' (Broker.lookup b r.msg).0,
      block,
    )

    same : target env' b' r1.kind r1.msg ≡ target env' b' r.kind r.msg
    same = cc (links.0.kind, links.0.msg)

-- A look-up may fail in the middle: the message has no receiver, more than one, or a dead one.
abbrev pub IsUnresolvable : Components → List ℕ → Type 0
IsUnresolvable env [] = Unit {0}
IsUnresolvable env (c ∷ []) = env.alive c ≡ false
IsUnresolvable env (c ∷ d ∷ more) = Unit {0}

resolve-unresolvable :
    (env : Components) (r : MonoRef) (xs : List ℕ)
    → IsUnresolvable env xs
    → ((resolve env r (some xs)).0 ≡ none)
      × ((resolve env r (some xs)).1.handler ≡ r.handler)
      × ((resolve env r (some xs)).1.receivers ≡ r.receivers)
unfolding resolve resolve_receiver
resolve-unresolvable env r [] u = (refl, refl, refl)
resolve-unresolvable env r (c ∷ []) u = rw u (refl, refl, refl)
resolve-unresolvable env r (c ∷ d ∷ more) u = (refl, refl, refl)

-- When the receivers of a message have become none, several, or a dead one, the first look-up of a
-- reference that was tied to handler `p` before answers nothing; but it leaves the old handler
-- beside the new weak pointer, so the next look-up answers `p`, from the cache.
pub lookup_twice_stale :
    (env : Components) (b : Broker) (r : MonoRef) (p : ℕ)
    → r.handler ≡ some p
    → expired b r.receivers ≡ true
    → IsUnresolvable env (receivers b r.msg)
    → ((lookup env b r).0 ≡ none) × ((lookup env (lookup env b r).2 (lookup env b r).1).0 ≡ some p)
lookup_twice_stale env b r p h e u = (
  ap (λ t. t.0) step ∙ failed.0,
  ap (λ t. t.0) (lookup_cached env (lookup env b r).2 (lookup env b r).1 cached) ∙ kept,
)
  where
    handle : Handle
    handle = (Broker.lookup b r.msg).0

    r' : MonoRef
    r' = record r { receivers = some handle }

    miss : is_cached b r ≡ false
    miss = ground arith

    step : lookup env b r ≡ (
      (resolve env r' (some (receivers b r.msg))).0,
      (resolve env r' (some (receivers b r.msg))).1,
      (Broker.lookup b r.msg).1,
    )
    step = lookup-resolve env b r miss

    failed :
        ((resolve env r' (some (receivers b r.msg))).0 ≡ none)
        × ((resolve env r' (some (receivers b r.msg))).1.handler ≡ r.handler)
        × ((resolve env r' (some (receivers b r.msg))).1.receivers ≡ some handle)
    failed = resolve-unresolvable env r' (receivers b r.msg) u

    kept : (lookup env b r).1.handler ≡ some p
    kept = ap (λ t. t.1.handler) step ∙ failed.1 ∙ h

    weak : (lookup env b r).1.receivers ≡ some handle
    weak = ap (λ t. t.1.receivers) step ∙ failed.2

    cached : is_cached (lookup env b r).2 (lookup env b r).1 ≡ true
    cached = ground (
      arith,
      kept,
      ap (expired (lookup env b r).2) weak,
      expired-lock (lookup env b r).2 handle,
      ap (λ t. Broker.lock t.2 handle) step,
      lookup-lock b r.msg,
    )
