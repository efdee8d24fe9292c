-- ===== src/Query/Async/Found.antt =====
-- A look-up of async_query.h and sync_query.h that does not come from the cache of mono_ref.h.
use minicomps.Prelude.{
  ℕ, ◌≡◌, ◌≢◌, refl, sym, ap, ◌∙◌, false, some, [], ◌∷◌, ok, ◌==◌, ==_self, update, arith,
}
use minicomps.Broker.Table.{receivers}
use minicomps.World.{World, components}
use minicomps.Ref.Mono
use minicomps.Ref.Mono.{MonoRef, executor_for}
use minicomps.Ref.Mono.Target.{is_cached}
use minicomps.Ref.Mono.Cache.{lookup-Links}
use minicomps.Query.Async.{lookup_mono}

-- What a look-up that does not come from the cache leaves of the reference `i` whose message has the
-- only receiver `c`.
pub record IsTied (w : World) (i c : ℕ) (r1 : MonoRef) : Type 0 where
  pub receiver : r1.receiver ≡ some c
  pub executor : r1.receiver_executor ≡ some (executor_for (w.component c) (w.mono_ref i).msg)
  pub same : r1.same_executor ≡ (
      (w.component (w.mono_ref i).component).default_executor
      == executor_for (w.component c) (w.mono_ref i).msg)

abbrev pub looked_up : ℕ → World → World
looked_up i w =
    let (p, r1, b) = Mono.lookup (components w) w.broker (w.mono_ref i) in
    record w { broker = b; mono_ref = update w.mono_ref i r1 }

pub lookup_mono-looked_up :
    (i p : ℕ) (w : World)
    → (Mono.lookup (components w) w.broker (w.mono_ref i)).0 ≡ some p
    → lookup_mono i w ≡ ok (some p) (looked_up i w)
unfolding lookup_mono
lookup_mono-looked_up i p w e = rw e refl

head_of : {c d : ℕ} → c ∷ [] ≡ d ∷ [] → c ≡ d
head_of e = cc

pub looked_up-IsTied :
    (i c p : ℕ) (w : World)
    → is_cached w.broker (w.mono_ref i) ≡ false
    → (Mono.lookup (components w) w.broker (w.mono_ref i)).0 ≡ some p
    → receivers w.broker (w.mono_ref i).msg ≡ c ∷ []
    → IsTied w i c ((looked_up i w).mono_ref i)
looked_up-IsTied i c p w miss e l =
    let t = (lookup-Links (components w) w.broker (w.mono_ref i) p miss e).0 in
    let o : t.only ≡ c = head_of (sym t.listed ∙ l) in
    let r = w.mono_ref i in
    let r1 = (Mono.lookup (components w) w.broker r).1 in
    let x : executor_for (w.component t.only) r1.msg ≡ executor_for (w.component c) r.msg =
      ap (λ m. executor_for (w.component t.only) m) t.msg
      ∙ ap (λ d. executor_for (w.component d) r.msg) o in
    rw (==_self i) (record {
      receiver = t.linked.receiver ∙ ap some o;
      executor = t.linked.executor ∙ ap some x;
      same =
          t.linked.same
          ∙ ap (λ d. (w.component d).default_executor == executor_for (w.component t.only) r1.msg)
              t.component
          ∙ ap (λ y. (w.component r.component).default_executor == y) x;
    })

different : (x y : ℕ) → x ≢ y → (y == x) ≡ false
different x y n = ground arith

-- The receiver works on another executor than the owner of the reference.
pub IsTied-other :
    (w : World) (i c : ℕ) (r1 : MonoRef) (owner : ℕ)
    → IsTied w i c r1
    → (w.mono_ref i).component ≡ owner
    → executor_for (w.component c) (w.mono_ref i).msg ≢ (w.component owner).default_executor
    → r1.same_executor ≡ false
IsTied-other w i c r1 owner t own n =
    t.same
    ∙ ap (λ d. (w.component d).default_executor == executor_for (w.component c) (w.mono_ref i).msg)
        own
    ∙ different (executor_for (w.component c) (w.mono_ref i).msg)
        (w.component owner).default_executor n
