-- ===== src/Query/Interface/Copies.antt =====
-- The local copies that a client makes of interface queries: the copy constructors of
-- if_async_query.h, if_sync_query.h and if_volatile_sync_query.h.
pub mod Lifetimes
use minicomps.Prelude.{
  ℕ, ◌≡◌, refl, sym, ap, ◌∙◌, Bool, true, false, Option, none, some, arith, ◌==◌, ==_self,
}
use minicomps.Component.{Component}
use minicomps.Callback.{Handler}
use minicomps.World.{World, IfQuery, QueryKind, async, sync, volatile}
use minicomps.Query.Interface.{copy_query}
use minicomps.Query.Interface.Shared.{set_query, set_handler, unset, lock_weak}
use minicomps.Query.Interface.AsyncQuery
use minicomps.Query.Interface.SyncQuery
use minicomps.Query.Interface.VolatileQuery

-- `publish` of the class of a member.
unfoldable pub publish_member : QueryKind → ℕ → Handler → ℕ → ℕ → World → World
publish_member async = AsyncQuery.publish
publish_member sync = SyncQuery.publish
publish_member volatile = VolatileQuery.publish

-- Whether a copy calls directly, where `same` says that client and handler work on one executor.
unfoldable pub calls_directly : QueryKind → Component → Bool → Bool
calls_directly async handling same = AsyncQuery.may_call_directly handling same
calls_directly sync handling same = same
calls_directly volatile handling same = same

pub lock_weak-some :
    (alive : ℕ → Bool) (o : Option ℕ) (c : ℕ)
    → o ≡ some c
    → alive c ≡ true
    → lock_weak alive o ≡ some c
lock_weak-some alive o c e a = rw (e, a) refl

-- The query `i` is published by the live component `c` on the live executor `x`, and the client `s` is at
-- work.
pub record IsReady (w : World) (i c x s : ℕ) (h : Handler) : Type 0 where
  pub handles : (w.if_query i).handler ≡ some h
  pub component : lock_weak w.alive (w.if_query i).handling_component ≡ some c
  pub executor : lock_weak w.executor_alive (w.if_query i).handling_executor ≡ some x
  pub client : w.current_component ≡ some s

set_handler-IsReady :
    (i c x s : ℕ) (h : Handler) (w : World)
    → w.alive c ≡ true
    → w.executor_alive x ≡ true
    → w.current_component ≡ some s
    → IsReady (set_handler i h c x w) i c x s h
unfolding set_handler set_query
set_handler-IsReady i c x s h w a b e = record {
  handles = rw (==_self i) refl;
  component =
      lock_weak-some w.alive ((set_handler i h c x w).if_query i).handling_component c
        (rw (==_self i) refl) a;
  executor =
      lock_weak-some w.executor_alive ((set_handler i h c x w).if_query i).handling_executor x
        (rw (==_self i) refl) b;
  client = e;
}

-- What a copy of the query `i` for the client `s` is like while it exists.
pub record IsCopy (k : QueryKind) (w : World) (i c x s : ℕ) (q : IfQuery) : Type 0 where
  pub kind : q.kind ≡ k
  pub linked : q.linked_query ≡ some i
  pub component : q.linked_handling_component ≡ some c
  pub executor : q.linked_executor ≡ some x
  pub sender : q.sending_component ≡ some s
  pub direct : q.direct ≡ calls_directly k (w.component c) (x == (w.component s).default_executor)
  pub handler : q.handler ≡ none
  pub exists : q.destroyed ≡ false

pub copy_query-IsCopy :
    (k : QueryKind) (i c x s : ℕ) (h : Handler) (w : World)
    → (w.if_query i).kind ≡ k
    → IsReady w i c x s h
    → (q : IfQuery) × (copy_query w i ≡ some q) × IsCopy k w i c x s q
unfolding copy_query calls_directly AsyncQuery.copy AsyncQuery.copy_for AsyncQuery.proxy
    AsyncQuery.new SyncQuery.copy SyncQuery.copy_for SyncQuery.proxy SyncQuery.new
    VolatileQuery.copy VolatileQuery.copy_for VolatileQuery.proxy VolatileQuery.new unset
copy_query-IsCopy async i c x s h w e r = (
  AsyncQuery.proxy w i s c x,
  rw (copy_query, e, AsyncQuery.copy, r.handles, r.component, r.executor, r.client) refl,
  record {
    kind = refl;
    linked = refl;
    component = refl;
    executor = refl;
    sender = refl;
    direct = refl;
    handler = refl;
    exists = refl;
  },
)
copy_query-IsCopy sync i c x s h w e r = (
  SyncQuery.proxy w i s c (some x),
  rw (copy_query, e, SyncQuery.copy, r.handles, r.component, r.executor, r.client) refl,
  record {
    kind = refl;
    linked = refl;
    component = refl;
    executor = refl;
    sender = refl;
    direct = refl;
    handler = refl;
    exists = refl;
  },
)
copy_query-IsCopy volatile i c x s h w e r = (
  VolatileQuery.proxy w i s c (some x),
  rw (copy_query, e, VolatileQuery.copy, r.handles, r.component, r.executor, r.client) refl,
  record {
    kind = refl;
    linked = refl;
    component = refl;
    executor = refl;
    sender = refl;
    direct = refl;
    handler = refl;
    exists = refl;
  },
)

set_handler-kind :
    (i c x : ℕ) (h : Handler) (w : World)
    → ((set_handler i h c x w).if_query i).kind ≡ (w.if_query i).kind
unfolding set_handler set_query
set_handler-kind i c x h w = rw (==_self i) refl

publish_member-set_handler :
    (k : QueryKind) (i : ℕ) (h : Handler) (c x : ℕ) (w : World)
    → publish_member k i h c x w ≡ set_handler i h c x w
unfolding publish_member AsyncQuery.publish SyncQuery.publish VolatileQuery.publish
publish_member-set_handler async i h c x w = refl
publish_member-set_handler sync i h c x w = refl
publish_member-set_handler volatile i h c x w = refl

-- A client `s` copies a query of any of the three classes that a live component has published on a live
-- executor: the copy is linked to the query, its component and executor, has no handler of its own, and
-- calls directly exactly if the executor is the client's own, where an asynchronous query also needs the
-- component to allow it.
pub copy_query-publish_member :
    (k : QueryKind) (i c x s : ℕ) (h : Handler) (w : World)
    → (w.if_query i).kind ≡ k
    → w.alive c ≡ true
    → w.executor_alive x ≡ true
    → w.current_component ≡ some s
    → (q : IfQuery) × (copy_query (publish_member k i h c x w) i ≡ some q) × IsCopy k w i c x s q
unfolding set_handler set_query
copy_query-publish_member k i c x s h w e a b d =
    let (q, made, copied) =
      copy_query-IsCopy k i c x s h (set_handler i h c x w) (set_handler-kind i c x h w ∙ e)
        (set_handler-IsReady i c x s h w a b d) in
    (
      q,
      ap (λ v. copy_query v i) (publish_member-set_handler k i h c x w) ∙ made,
      record {
        kind = copied.kind;
        linked = copied.linked;
        exists = copied.exists;
        component = copied.component;
        executor = copied.executor;
        sender = copied.sender;
        direct = copied.direct;
        handler = copied.handler;
      },
    )

handler_of : Option IfQuery → Option Handler
handler_of none = none
handler_of (some q) = q.handler

AsyncQuery-copy_for :
    (w : World) (i : ℕ) (s c x : Option ℕ) → handler_of (AsyncQuery.copy_for w i s c x) ≡ none
unfolding handler_of AsyncQuery.copy_for AsyncQuery.proxy AsyncQuery.new unset
AsyncQuery-copy_for w i none c x = refl
AsyncQuery-copy_for w i (some s) none x = refl
AsyncQuery-copy_for w i (some s) (some c) none = refl
AsyncQuery-copy_for w i (some s) (some c) (some x) = refl

SyncQuery-copy_for :
    (w : World) (i : ℕ) (s c x : Option ℕ) → handler_of (SyncQuery.copy_for w i s c x) ≡ none
unfolding handler_of SyncQuery.copy_for SyncQuery.proxy SyncQuery.new unset
SyncQuery-copy_for w i none c x = refl
SyncQuery-copy_for w i (some s) none x = refl
SyncQuery-copy_for w i (some s) (some c) x = refl

VolatileQuery-copy_for :
    (w : World) (i : ℕ) (s c x : Option ℕ) → handler_of (VolatileQuery.copy_for w i s c x) ≡ none
unfolding handler_of VolatileQuery.copy_for VolatileQuery.proxy VolatileQuery.new unset
VolatileQuery-copy_for w i none c x = refl
VolatileQuery-copy_for w i (some s) none x = refl
VolatileQuery-copy_for w i (some s) (some c) x = refl

copy_query-handler_of : (w : World) (i : ℕ) → handler_of (copy_query w i) ≡ none
unfolding handler_of copy_query AsyncQuery.copy SyncQuery.copy VolatileQuery.copy
copy_query-handler_of w i =
    let c = lock_weak w.alive (w.if_query i).handling_component in
    let x = lock_weak w.executor_alive (w.if_query i).handling_executor in
    ground (
      arith,
      AsyncQuery-copy_for w i w.current_component c x,
      SyncQuery-copy_for w i w.current_component c x,
      VolatileQuery-copy_for w i w.current_component c x,
    )

-- A copy cannot be copied: a query that stands where a copy has been put makes every client that copies
-- it abort, which copying an interface that is itself a copy does.
copy_query-copy_query :
    (i j : ℕ) (q : IfQuery) (w v : World)
    → copy_query w i ≡ some q
    → copy_query (set_query j q v) j ≡ none
unfolding copy_query set_query handler_of AsyncQuery.copy SyncQuery.copy VolatileQuery.copy
copy_query-copy_query i j q w v e =
    let bare : q.handler ≡ none = sym (ap handler_of e) ∙ copy_query-handler_of w i in ground arith
