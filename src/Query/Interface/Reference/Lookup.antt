-- ===== src/Query/Interface/Reference/Lookup.antt =====
-- `lookup` of interface_ref.h, outside its cache and then through it.
use minicomps.Prelude.{
  Option, ℕ, ◌≤◌, ◌<◌, ◌≡◌, refl, ap, ◌∙◌, true, false, not, ◌&&◌, none, some, List, [], ◌∷◌, All,
  Pairs, ok, is_some, arith, ==_self, sym, subst, Bool,
}
use minicomps.Broker
use minicomps.Broker.{Broker, Handle}
use minicomps.Broker.Table.{receivers}
use minicomps.Broker.Handles.{lookup-lock}
use minicomps.Component.{lookup_interface}
use minicomps.World.{World, IfQuery}
use minicomps.Ref.Mono.{expired}
use minicomps.Query.Interface.Reference.{
  set_reference, set_current, surviving, destroy_proxy, set_proxy, copy_queries, make_proxy,
  resolve_receiver, resolve, lookup,
}
use minicomps.Query.Interface.Reference.Proxies.{IsOffered, Mirrors, Agrees, copy_queries-Pairs}
use minicomps.Query.Interface.Reference.Replaced.{IsKnown, surviving-new, surviving-ap}

-- The test by which `lookup` trusts its cache.
abbrev pub is_cached : World → ℕ → Bool
is_cached w i =
    is_some (w.interface_ref i).local_interface_proxy
    && not (expired w.broker (w.interface_ref i).resolved_receivers)

module _ (i c implementation : ℕ) (w : World) where
  abbrev weak : Handle
  weak = (Broker.lookup w.broker (w.interface_ref i).msg).0

  -- The state once the receivers have been looked up, and once the component has been locked.
  abbrev looked_up : World
  looked_up =
      set_reference i (record (w.interface_ref i) { resolved_receivers = some weak })
        (record w { broker = (Broker.lookup w.broker (w.interface_ref i).msg).1 })

  abbrev receiver_locked : World
  receiver_locked =
      set_reference i (record (looked_up.interface_ref i) { receiver = some c }) looked_up

  abbrev pub sender : ℕ
  sender = (w.interface_ref i).owning_component

  abbrev copying : World
  copying =
      set_current (some (receiver_locked.interface_ref i).owning_component)
        (receiver_locked.interface_ref i).lifetime receiver_locked

  copying-Agrees : Agrees w sender w.next_if_query (w.interface_ref i).lifetime copying
  unfolding set_current set_reference
  copying-Agrees = record {
    alive = refl;
    executor_alive = refl;
    component = refl;
    client = rw (==_self i) refl;
    lifetime = rw (==_self i) refl;
    old = λ q l. refl;
    above = omega arith;
  }

  copying-next : (q : ℕ) → q < w.next_if_query → q < copying.next_if_query
  unfolding set_current set_reference
  copying-next q l = l

  copying-above : (q : ℕ) → copying.next_if_query ≤ q → w.next_if_query ≤ q
  unfolding set_current set_reference
  copying-above q l = l

  copying-old : (q : ℕ) → q < w.next_if_query → copying.if_query q ≡ w.if_query q
  unfolding set_current set_reference
  copying-old q l = refl

  -- The state after the look-up, with the copies among the queries `f`.
  abbrev resolved : List ℕ → (ℕ → IfQuery) → ℕ → World
  resolved qs f m =
      let v = record copying { if_query = f; next_if_query = m } in
      set_current none none (set_proxy i qs v)

  lookup-looked_up :
      is_cached w i ≡ false
      → receivers w.broker (w.interface_ref i).msg ≡ c ∷ []
      → lookup i w ≡ resolve_receiver i c looked_up
  unfolding lookup resolve
  lookup-looked_up n rs =
      rw (lookup, n, lookup-lock w.broker (w.interface_ref i).msg, rs, resolve) refl

  looked_up-msg : (looked_up.interface_ref i).msg ≡ (w.interface_ref i).msg
  unfolding set_reference
  looked_up-msg = rw (==_self i) refl

  looked_up-kept : (looked_up.alive ≡ w.alive) × (looked_up.component ≡ w.component)
  unfolding set_reference
  looked_up-kept = (refl, refl)

  resolve_receiver-locked :
      w.alive c ≡ true
      → lookup_interface (w.component c) (w.interface_ref i).msg ≡ some implementation
      → resolve_receiver i c looked_up ≡ make_proxy i implementation receiver_locked
  unfolding resolve_receiver
  resolve_receiver-locked a e =
      let (alive, component) = looked_up-kept in
      rw
        (
          resolve_receiver,
          ap (λ z. z c) alive ∙ a,
          ap (lookup_interface (looked_up.component c)) looked_up-msg
              ∙ ap (λ z. lookup_interface (z c) (w.interface_ref i).msg) component
              ∙ e,
        )
        refl

  locked-interface : receiver_locked.interface ≡ w.interface
  unfolding set_reference
  locked-interface = refl

  make_proxy-resolved :
      (qs : List ℕ) (f : ℕ → IfQuery) (m : ℕ)
      → copy_queries (w.interface implementation) copying
        ≡ ok qs (record copying { if_query = f; next_if_query = m })
      → make_proxy i implementation receiver_locked ≡ ok (some qs) (resolved qs f m)
  unfolding make_proxy set_reference set_proxy destroy_proxy
  make_proxy-resolved qs f m copies = rw (make_proxy, copies) refl

  resolved-fields :
      (qs : List ℕ) (f : ℕ → IfQuery) (m : ℕ)
      → let v = resolved qs f m in
        ((v.interface_ref i).local_interface_proxy ≡ some qs)
        × ((v.interface_ref i).resolved_receivers ≡ some weak)
        × (v.broker ≡ (Broker.lookup w.broker (w.interface_ref i).msg).1)
        × (v.if_query ≡ surviving (w.interface_ref i).local_interface_proxy f)
        × (v.next_if_query ≡ m)
        × (v.current_component ≡ none)
        × (v.current_lifetime ≡ none)
        × (v.component ≡ w.component)
        × (v.executor ≡ w.executor)
        × (v.lifetimes ≡ w.lifetimes)
  unfolding set_reference set_current set_proxy destroy_proxy
  resolved-fields qs f m = (
    rw (==_self i) refl,
    rw (==_self i) refl,
    refl,
    rw (==_self i) refl,
    refl,
    refl,
    refl,
    refl,
    refl,
    refl,
  )

-- A fresh handle has not expired.
lookup-expired :
    (b : Broker) (m : ℕ) → Broker.expired (Broker.lookup b m).1 (Broker.lookup b m).0 ≡ false
unfolding Broker.expired
lookup-expired b m = rw (Broker.expired, lookup-lock b m) refl

cached-lookup :
    (i : ℕ) (qs : List ℕ) (h : Handle) (w : World)
    → (w.interface_ref i).local_interface_proxy ≡ some qs
    → (w.interface_ref i).resolved_receivers ≡ some h
    → Broker.expired w.broker h ≡ false
    → lookup i w ≡ ok (some qs) w
unfolding lookup expired
cached-lookup i qs h w p r e = rw (lookup, p, r, expired, e) refl

-- What a look-up through a reference of the component `s` for the lifetime `life` gives and leaves, for
-- an interface with the queries `ps`: the queries `qs`, where the proxy was `old`.
pub record Resolves (w : World) (i s : ℕ) (life : Option ℕ) (old : Option (List ℕ)) (ps qs : List ℕ)
    (v : World) : Type 0 where
  pub copies : Pairs (Mirrors w s life v.if_query) ps qs
  pub known : IsKnown v.next_if_query (some qs)
  pub kept : (q : ℕ) → q < w.next_if_query → v.if_query q ≡ surviving old w.if_query q
  pub again : lookup i v ≡ ok (some qs) v
  pub component : v.current_component ≡ none
  pub lifetime : v.current_lifetime ≡ none
  pub components : v.component ≡ w.component
  pub executors : v.executor ≡ w.executor
  pub lifetimes : v.lifetimes ≡ w.lifetimes

-- A reference that does not trust its cache looks up an interface that the only receiver of the
-- message implements, all of whose queries have been published by live components on live executors.
-- The queries of the interface, and those of the proxy that the reference may still have, are among the
-- queries made so far. It gives one new query for each of the interface's, in order, a copy of it for the
-- component that owns the reference, which carries the reference's lifetime if it is asynchronous. The old
-- proxy's queries are destroyed, and all other queries that there were before stay as they are. No
-- component is at work in the thread afterwards, the new proxy's queries are again among those made so
-- far, and a second look-up gives the same queries and changes nothing.
pub lookup-Resolves :
    (i c implementation : ℕ) (w : World)
    → is_cached w i ≡ false
    → receivers w.broker (w.interface_ref i).msg ≡ c ∷ []
    → w.alive c ≡ true
    → lookup_interface (w.component c) (w.interface_ref i).msg ≡ some implementation
    → All (λ q. IsOffered w q × (q < w.next_if_query)) (w.interface implementation)
    → IsKnown w.next_if_query (w.interface_ref i).local_interface_proxy
    → (qs : List ℕ) × (v : World) × (lookup i w ≡ ok (some qs) v)
      × Resolves w i
          (w.interface_ref i).owning_component
          (w.interface_ref i).lifetime
          (w.interface_ref i).local_interface_proxy
          (w.interface implementation)
          qs
          v
lookup-Resolves i c implementation w n rs a e os old_known =
    let (qs, f, m, ran, old, grows, known, pairs) =
      copy_queries-Pairs w (sender i c implementation w) w.next_if_query
        (w.interface_ref i).lifetime (w.interface implementation) (copying i c implementation w)
        (copying-Agrees i c implementation w) os in
    let v = resolved i c implementation w qs f m in
    let (proxy, weakly, b, fs, next, nobody, no_life, comps, execs, lives) =
      resolved-fields i c implementation w qs f m in
    (
      qs,
      v,
      lookup-looked_up i c implementation w n rs
          ∙ resolve_receiver-locked i c implementation w a e
          ∙ make_proxy-resolved i c implementation w qs f m ran,
      record {
        copies = pairs v.if_query (λ q l.
            ap (λ g. g q) fs
            ∙ surviving-new w.next_if_query (w.interface_ref i).local_interface_proxy f q old_known
                (copying-above i c implementation w q l));
        known = subst (λ z. IsKnown z (some qs)) (sym next) known;
        kept = λ q l.
            ap (λ g. g q) fs
            ∙ surviving-ap (w.interface_ref i).local_interface_proxy f w.if_query q (
                old q (copying-next i c implementation w q l)
                ∙ copying-old i c implementation w q l);
        again = cached-lookup i qs (weak i c implementation w) v proxy weakly (
            ap (λ z. Broker.expired z (weak i c implementation w)) b
            ∙ lookup-expired w.broker (w.interface_ref i).msg);
        component = nobody;
        lifetime = no_life;
        components = comps;
        executors = execs;
        lifetimes = lives;
      },
    )
