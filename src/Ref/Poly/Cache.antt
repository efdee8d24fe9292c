-- ===== src/Ref/Poly/Cache.antt =====
-- What `poly_ref::lookup` of poly_ref.h finds, and its cache over time.
use minicomps.Prelude.{
  ℕ, ◌+◌, ◌≡◌, refl, sym, ap, ◌∙◌, inl, inr, Bool, true, false, not, ◌&&◌, ◌||◌, none, some, List,
  [], ◌∷◌, map, keep, arith, if◌then◌else◌, any, is_some, Bool-cases,
}
use minicomps.Broker
use minicomps.Broker.{Broker}
use minicomps.Broker.Table.{receivers}
use minicomps.Broker.Handles.{Call, run, touches, IsFresh, lock-run, lookup-lock}
use minicomps.Component.{lookup_async_handler}
use minicomps.Ref.Mono.{Components, expired}
use minicomps.Ref.Mono.Cache.{expired-lock}
use minicomps.Ref.Poly.{PolyRef, is_empty, collect, lookup}

-- The test by which `lookup` trusts its cache.
abbrev pub is_cached : Broker → PolyRef → Bool
is_cached b r = not (is_empty r.receiver_handlers) && not (expired b r.receivers)

-- A component that can be reached: it lives and has a handler.
abbrev pub is_reachable : Components → ℕ → ℕ → Bool
is_reachable env msg c = env.alive c && is_some (lookup_async_handler (env.component c) msg)

collect-is_reachable :
    (env : Components) (r : PolyRef) (xs : List ℕ)
    → map (λ h. h.receiving_component) (collect env r xs) ≡ keep (is_reachable env r.msg) xs
unfolding collect
collect-is_reachable env r [] = refl
collect-is_reachable env r (c ∷ cs) = ground (arith, collect-is_reachable env r cs)

-- The list depends on the message and the owner of the reference alone.
collect-ref :
    (env : Components) (r s : PolyRef) (xs : List ℕ)
    → r.msg ≡ s.msg
    → r.component ≡ s.component
    → collect env r xs ≡ collect env s xs
unfolding collect
collect-ref env r s [] m c = refl
collect-ref env r s (x ∷ xs) m c = ground (arith, m, c, collect-ref env r s xs m c)

-- What `lookup` does when it does not trust its cache.
pub lookup-collect :
    (env : Components) (b : Broker) (r : PolyRef)
    → is_cached b r ≡ false
    → lookup env b r ≡ (
      record r {
        receivers = some (Broker.lookup b r.msg).0;
        receiver_handlers = collect env r (receivers b r.msg);
        clears = r.clears + 1;
      },
      (Broker.lookup b r.msg).1,
    )
unfolding lookup
lookup-collect env b r e = rw (e, lookup-lock b r.msg) refl

lookup_cached :
    (env : Components) (b : Broker) (r : PolyRef) → is_cached b r ≡ true → lookup env b r ≡ (r, b)
unfolding lookup
lookup_cached env b r e = rw e refl

-- A look-up that does not come from the cache reaches, in the order in which they were associated, the
-- receivers of the message that live and have a handler, and no other component.
lookup-is_reachable :
    (env : Components) (b : Broker) (r : PolyRef)
    → is_cached b r ≡ false
    → map (λ h. h.receiving_component) (lookup env b r).0.receiver_handlers
      ≡ keep (is_reachable env r.msg) (receivers b r.msg)
lookup-is_reachable env b r e =
    ap (λ q. map (λ h. h.receiving_component) q.0.receiver_handlers) (lookup-collect env b r e)
    ∙ collect-is_reachable env r (receivers b r.msg)

-- After a look-up that did not come from the cache, and after any later calls of the broker, the next
-- look-up gives the same handlers again if there were any and no call replaced the receivers of the
-- message, whatever has become of the components, and collects them anew if not.
pub lookup-handlers :
    (env env' : Components) (b : Broker) (r : PolyRef) (cs : List Call) {b' : Broker}
    → IsFresh b
    → is_cached b r ≡ false
    → run cs (lookup env b r).1 ≡ some b'
    → (lookup env' b' (lookup env b r).0).0.receiver_handlers ≡ (
        if any (touches r.msg) cs || is_empty (collect env r (receivers b r.msg))
        then collect env' r (receivers b' r.msg)
        else collect env r (receivers b r.msg))
lookup-handlers env env' b r cs {b'} fresh miss h =
    elim (Bool-cases (any (touches r.msg) cs || is_empty (collect env r (receivers b r.msg)))) [
      | inl hit ↦ rw hit (
          ap (λ q. q.0.receiver_handlers) (lookup-collect env' b' r1 (cached ∙ ap not hit))
          ∙ ap (λ m. collect env' r1 (receivers b' m)) same_msg
          ∙ collect-ref env' r1 r (receivers b' r.msg) same_msg (ap (λ q. q.0.component) step))
      | inr clear ↦ rw clear (
          ap (λ q. q.0.receiver_handlers) (lookup_cached env' b' r1 (cached ∙ ap not clear))
          ∙ ap (λ q. q.0.receiver_handlers) step)
    ]
  where
    r1 : PolyRef
    r1 = (lookup env b r).0

    step : lookup env b r ≡ (
      record r {
        receivers = some (Broker.lookup b r.msg).0;
        receiver_handlers = collect env r (receivers b r.msg);
        clears = r.clears + 1;
      },
      (Broker.lookup b r.msg).1,
    )
    step = lookup-collect env b r miss

    same_msg : r1.msg ≡ r.msg
    same_msg = ap (λ q. q.0.msg) step

    block :
        Broker.lock b' (Broker.lookup b r.msg).0
        ≡ (if any (touches r.msg) cs then none else some (receivers b r.msg))
    block = lock-run b r.msg cs fresh (ap (run cs) (sym (ap (λ q. q.1) step)) ∙ h)

    cached :
        is_cached b' r1
        ≡ not (any (touches r.msg) cs || is_empty (collect env r (receivers b r.msg)))
    cached = ground (
      arith,
      ap (λ q. is_empty q.0.receiver_handlers) step,
      ap (λ q. expired b' q.0.receivers) step,
      expired-lock b' (Broker.lookup b r.msg).0,
      block,
    )
