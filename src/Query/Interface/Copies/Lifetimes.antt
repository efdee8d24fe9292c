-- ===== src/Query/Interface/Copies/Lifetimes.antt =====
-- The lifetime that a copy of an interface query carries: if_async_query.h, if_sync_query.h and
-- if_volatile_sync_query.h.
use minicomps.Prelude.{ℕ, ◌≡◌, refl, sym, ap, ◌∙◌, Option, none, some, arith}
use minicomps.World.{World, IfQuery, QueryKind, async, sync, volatile}
use minicomps.Query.Interface.{copy_query}
use minicomps.Query.Interface.Shared.{unset, lock_weak}
use minicomps.Query.Interface.AsyncQuery
use minicomps.Query.Interface.SyncQuery
use minicomps.Query.Interface.VolatileQuery

-- The lifetime that a copy of a class keeps of the one that is current.
abbrev pub kept_lifetime : QueryKind → Option ℕ → Option ℕ
kept_lifetime async life = life
kept_lifetime sync life = none
kept_lifetime volatile life = none

lifetime_of : Option ℕ → Option IfQuery → Option ℕ
lifetime_of life none = life
lifetime_of life (some q) = q.sending_lifetime

AsyncQuery-lifetime_of :
    (w : World) (i : ℕ) (s c x : Option ℕ)
    → lifetime_of w.current_lifetime (AsyncQuery.copy_for w i s c x) ≡ w.current_lifetime
unfolding lifetime_of AsyncQuery.copy_for AsyncQuery.proxy AsyncQuery.new unset
AsyncQuery-lifetime_of w i none c x = refl
AsyncQuery-lifetime_of w i (some s) none x = refl
AsyncQuery-lifetime_of w i (some s) (some c) none = refl
AsyncQuery-lifetime_of w i (some s) (some c) (some x) = refl

SyncQuery-lifetime_of :
    (w : World) (i : ℕ) (s c x : Option ℕ) → lifetime_of none (SyncQuery.copy_for w i s c x) ≡ none
unfolding lifetime_of SyncQuery.copy_for SyncQuery.proxy SyncQuery.new unset
SyncQuery-lifetime_of w i none c x = refl
SyncQuery-lifetime_of w i (some s) none x = refl
SyncQuery-lifetime_of w i (some s) (some c) x = refl

VolatileQuery-lifetime_of :
    (w : World) (i : ℕ) (s c x : Option ℕ)
    → lifetime_of none (VolatileQuery.copy_for w i s c x) ≡ none
unfolding lifetime_of VolatileQuery.copy_for VolatileQuery.proxy VolatileQuery.new unset
VolatileQuery-lifetime_of w i none c x = refl
VolatileQuery-lifetime_of w i (some s) none x = refl
VolatileQuery-lifetime_of w i (some s) (some c) x = refl

copy_query-lifetime_of :
    (k : QueryKind) (w : World) (i : ℕ)
    → (w.if_query i).kind ≡ k
    → lifetime_of (kept_lifetime k w.current_lifetime) (copy_query w i)
      ≡ kept_lifetime k w.current_lifetime
unfolding lifetime_of copy_query AsyncQuery.copy SyncQuery.copy VolatileQuery.copy
copy_query-lifetime_of async w i e =
    let c = lock_weak w.alive (w.if_query i).handling_component in
    let x = lock_weak w.executor_alive (w.if_query i).handling_executor in
    ground (arith, e, AsyncQuery-lifetime_of w i w.current_component c x)
copy_query-lifetime_of sync w i e =
    let c = lock_weak w.alive (w.if_query i).handling_component in
    let x = lock_weak w.executor_alive (w.if_query i).handling_executor in
    ground (arith, e, SyncQuery-lifetime_of w i w.current_component c x)
copy_query-lifetime_of volatile w i e =
    let c = lock_weak w.alive (w.if_query i).handling_component in
    let x = lock_weak w.executor_alive (w.if_query i).handling_executor in
    ground (arith, e, VolatileQuery-lifetime_of w i w.current_component c x)

pub copy_query-kept_lifetime :
    (k : QueryKind) (w : World) (i : ℕ) (q : IfQuery)
    → (w.if_query i).kind ≡ k
    → copy_query w i ≡ some q
    → q.sending_lifetime ≡ kept_lifetime k w.current_lifetime
unfolding lifetime_of
copy_query-kept_lifetime k w i q e made =
    sym (ap (lifetime_of (kept_lifetime k w.current_lifetime)) made)
    ∙ copy_query-lifetime_of k w i e
