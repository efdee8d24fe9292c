-- ===== src/Query/Interface/Reference/Proxies.antt =====
-- What the look-up of interface_ref.h gives: the local copies of the queries of an interface.
use minicomps.Prelude.{
  Option, ℕ, ◌+◌, ◌<◌, ◌≤◌, ◌≡◌, refl, sym, ap, ◌∙◌, some, List, [], ◌∷◌, All, Pairs, ok, arith,
  ◌==◌, ==_self, subst,
}
use minicomps.Callback.{Handler}
use minicomps.World.{World, IfQuery}
use minicomps.Query.Interface.{copy_query}
use minicomps.Query.Interface.Shared.{set_query, lock_weak}
use minicomps.Query.Interface.Copies.{IsReady, IsCopy, copy_query-IsCopy, calls_directly}
use minicomps.Query.Interface.Copies.Lifetimes.{kept_lifetime, copy_query-kept_lifetime}
use minicomps.Query.Interface.Reference.{copy_queries}

-- A query that has a handler, in a live component and on a live executor.
pub record IsOffered (w : World) (q : ℕ) : Type 0 where
  pub handler : Handler
  pub component : ℕ
  pub executor : ℕ
  pub handles : (w.if_query q).handler ≡ some handler
  pub lives : lock_weak w.alive (w.if_query q).handling_component ≡ some component
  pub works : lock_weak w.executor_alive (w.if_query q).handling_executor ≡ some executor

-- Among the queries `f`, `q'` is a copy of `q` for the client `s` and its lifetime `life`.
pub record Mirrors (w : World) (s : ℕ) (life : Option ℕ) (f : ℕ → IfQuery) (q q' : ℕ) : Type 0 where
  pub component : ℕ
  pub executor : ℕ
  pub lives : lock_weak w.alive (w.if_query q).handling_component ≡ some component
  pub works : lock_weak w.executor_alive (w.if_query q).handling_executor ≡ some executor
  pub copied : IsCopy (w.if_query q).kind w q component executor s (f q')
  pub lifetime : (f q').sending_lifetime ≡ kept_lifetime (w.if_query q).kind life

-- A later state in which the client `s` is at work and the first `n` queries are as they were.
pub record Agrees (w : World) (s n : ℕ) (life : Option ℕ) (v : World) : Type 0 where
  pub alive : v.alive ≡ w.alive
  pub executor_alive : v.executor_alive ≡ w.executor_alive
  pub component : v.component ≡ w.component
  pub client : v.current_component ≡ some s
  pub lifetime : v.current_lifetime ≡ life
  pub old : (q : ℕ) → q < n → v.if_query q ≡ w.if_query q
  pub above : n ≤ v.next_if_query

Agrees-IsReady :
    (w : World) (s n : ℕ) (life : Option ℕ) (v : World) (q : ℕ) (o : IsOffered w q)
    → Agrees w s n life v
    → q < n
    → IsReady v q o.component o.executor s o.handler
Agrees-IsReady w s n life v q o a l =
    let same = a.old q l in
    record {
      handles = ap (λ z. z.handler) same ∙ o.handles;
      component =
          ap (λ z. lock_weak v.alive z.handling_component) same
          ∙ ap (λ z. lock_weak z (w.if_query q).handling_component) a.alive
          ∙ o.lives;
      executor =
          ap (λ z. lock_weak v.executor_alive z.handling_executor) same
          ∙ ap (λ z. lock_weak z (w.if_query q).handling_executor) a.executor_alive
          ∙ o.works;
      client = a.client;
    }

-- The copy that the copy constructor makes later.
copy_query-Mirrors :
    (w : World) (s n : ℕ) (life : Option ℕ) (v : World) (q : ℕ)
    → IsOffered w q
    → Agrees w s n life v
    → q < n
    → (q' : IfQuery) × (copy_query v q ≡ some q')
      × ((f : ℕ → IfQuery) (m : ℕ) → f m ≡ q' → Mirrors w s life f q m)
copy_query-Mirrors w s n life v q o a l =
    let k = (w.if_query q).kind in
    let (q', made, c) =
      copy_query-IsCopy k q o.component o.executor s o.handler v (ap (λ z. z.kind) (a.old q l))
        (Agrees-IsReady w s n life v q o a l) in
    (
      q',
      made,
      λ f m e. record {
        component = o.component;
        executor = o.executor;
        lives = o.lives;
        works = o.works;
        copied = subst (IsCopy k w q o.component o.executor s) (sym e) (record {
          kind = c.kind;
          linked = c.linked;
          component = c.component;
          executor = c.executor;
          sender = c.sender;
          direct =
              c.direct
              ∙ ap (λ z. calls_directly k (z o.component) (o.executor == (z s).default_executor))
                  a.component;
          handler = c.handler;
          exists = c.exists;
        });
        lifetime =
            ap (λ z. z.sending_lifetime) e
            ∙ copy_query-kept_lifetime k v q q' (ap (λ z. z.kind) (a.old q l)) made
            ∙ ap (kept_lifetime k) a.lifetime;
      },
    )

-- The copies are new queries, and stay copies in any state that agrees on the new queries.
pub copy_queries-Pairs :
    (w : World) (s n : ℕ) (life : Option ℕ) (qs : List ℕ) (v : World)
    → Agrees w s n life v
    → All (λ q. IsOffered w q × (q < n)) qs
    → (qs' : List ℕ) × (f : ℕ → IfQuery) × (m : ℕ) × (copy_queries qs v
        ≡ ok qs' (record v { if_query = f; next_if_query = m }))
      × ((q : ℕ) → q < v.next_if_query → f q ≡ v.if_query q)
      × (v.next_if_query ≤ m)
      × All (λ q. q < m) qs'
      × ((g : ℕ → IfQuery)
          → ((q : ℕ) → v.next_if_query ≤ q → g q ≡ f q)
          → Pairs (Mirrors w s life g) qs qs')
unfolding copy_queries set_query
copy_queries-Pairs w s n life [] v a os =
    ([], v.if_query, v.next_if_query, refl, (λ q l. refl), omega arith, tt, λ g same. tt)
copy_queries-Pairs w s n life (q ∷ qs) v a ((o, l), os) =
    let (q', made, mirrors) = copy_query-Mirrors w s n life v q o a l in
    let next = v.next_if_query in
    let v1 = set_query next q' (record v { next_if_query = next + 1 }) in
    let a1 : Agrees w s n life v1 = record {
      alive = a.alive;
      executor_alive = a.executor_alive;
      component = a.component;
      client = a.client;
      lifetime = a.lifetime;
      old = λ z k. (let e = a.old z k in let b = a.above in ground arith);
      above = (let b = a.above in omega (arith, b));
    } in
    let (qs', f, m, ran, old, grows, known, pairs) = copy_queries-Pairs w s n life qs v1 a1 os in
    (
      next ∷ qs',
      f,
      m,
      rw (copy_queries, made, ran) refl,
      (λ z k. old z (omega (arith, k)) ∙ (ground arith)),
      omega (arith, grows),
      (omega (arith, grows), known),
      λ g same. (
        mirrors g next (same next (omega arith) ∙ old next (omega arith) ∙ rw (==_self next) refl),
        pairs g (λ z k. same z (omega (arith, k))),
      ),
    )
