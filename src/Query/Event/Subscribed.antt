-- ===== src/Query/Event/Subscribed.antt =====
-- The subscriptions of several components to one event: `subscribe_event` of component_base.h.
use minicomps.Prelude.{
  ℕ, ◌<◌, ◌≡◌, ◌≢◌, refl, sym, ap, ◌∙◌, none, some, List, [], ◌∷◌, ◌++◌, map, All, append-nil,
  append_assoc, arith, ==_self, find, find-put,
}
use minicomps.Broker.Table.{receivers, receivers-associate}
use minicomps.Callback.{code}
use minicomps.World.{World, set_component}
use minicomps.Base.Publish.{
  subscribe_event, set_async_handler, drop_handler, new_handler, associate_with,
  add_dependency_info,
}
use minicomps.Query.Event.Delivery.{executor_of}

-- Components subscribe to the event `msg`, one after the other, each with its handler.
unfoldable pub subscribe_all : ℕ → List (ℕ × ℕ) → World → World
subscribe_all msg [] w = w
subscribe_all msg ((c, k) ∷ ss) w = subscribe_all msg ss (subscribe_event c msg k w)

abbrev pub IsNewTo : ℕ → World → ℕ × ℕ → Type 0
IsNewTo msg w (c, k) = find msg (w.component c).async_handlers ≡ none

-- No component subscribes twice.
abbrev pub AreDistinct : List (ℕ × ℕ) → Type 0
AreDistinct [] = Unit {0}
AreDistinct (s ∷ ss) = All (λ t. s.0 ≢ t.0) ss × AreDistinct ss

-- The subscription `s` stands: the component has an entry for the event, and its handler runs there.
pub record Listens (msg : ℕ) (w : World) (s : ℕ × ℕ) : Type 0 where
  pub address : ℕ
  pub entered : find msg (w.component s.0).async_handlers ≡ some address
  pub runs : w.handler address ≡ some (code s.1)
  pub below : address < w.next_handler

-- One subscription by a component that has no handler for the message.
module _ (msg c k : ℕ) (w : World) (new : find msg (w.component c).async_handlers ≡ none) where
  subscribe_event-Listens : Listens msg (subscribe_event c msg k w) (c, k)
  unfolding subscribe_event set_async_handler drop_handler new_handler associate_with
      add_dependency_info set_component
  subscribe_event-Listens = rw new (record {
    address = w.next_handler;
    entered =
        rw (==_self c, find-put msg msg w.next_handler (w.component c).async_handlers, ==_self msg)
          refl;
    runs = rw (==_self w.next_handler) refl;
    below = omega arith;
  })

  subscribe_event-keeps :
      (s : ℕ × ℕ) → c ≢ s.0 → Listens msg w s → Listens msg (subscribe_event c msg k w) s
  unfolding subscribe_event set_async_handler drop_handler new_handler associate_with
      add_dependency_info set_component
  subscribe_event-keeps s n l = rw new (record {
    address = l.address;
    entered = ground (arith, l.entered);
    runs = (let b = l.below in ground (arith, l.runs));
    below = (let b = l.below in omega (arith, b));
  })

  subscribe_event-IsNewTo :
      (s : ℕ × ℕ) → c ≢ s.0 → IsNewTo msg w s → IsNewTo msg (subscribe_event c msg k w) s
  unfolding subscribe_event set_async_handler drop_handler new_handler associate_with
      add_dependency_info set_component
  subscribe_event-IsNewTo s n l = rw new (ground (arith, l))

  subscribe_event-kept :
      let v = subscribe_event c msg k w in
      (receivers v.broker msg ≡ receivers w.broker msg ++ c ∷ [])
      × (v.alive ≡ w.alive)
      × (v.executor ≡ w.executor)
      × (v.poly_ref ≡ w.poly_ref)
      × ((d : ℕ) → executor_of v d ≡ executor_of w d)
  unfolding subscribe_event set_async_handler drop_handler new_handler associate_with
      add_dependency_info set_component
  subscribe_event-kept = rw new (
    receivers-associate w.broker msg c msg ∙ rw (==_self msg) refl,
    refl,
    refl,
    refl,
    λ d. ground arith,
  )

still_new :
    (msg c k : ℕ) (w : World)
    → find msg (w.component c).async_handlers ≡ none
    → (ss : List (ℕ × ℕ)) → All (λ t. c ≢ t.0) ss
    → All (IsNewTo msg w) ss
    → All (IsNewTo msg (subscribe_event c msg k w)) ss
still_new msg c k w new [] apart news = tt
still_new msg c k w new (s ∷ ss) (n, apart) (e, news) =
    (subscribe_event-IsNewTo msg c k w new s n e, still_new msg c k w new ss apart news)

subscribe_all-keeps :
    (msg : ℕ) (ss : List (ℕ × ℕ)) (w : World) (s : ℕ × ℕ)
    → All (IsNewTo msg w) ss
    → AreDistinct ss
    → All (λ t. s.0 ≢ t.0) ss
    → Listens msg w s
    → Listens msg (subscribe_all msg ss w) s
unfolding subscribe_all
subscribe_all-keeps msg [] w s news d n l = l
subscribe_all-keeps msg ((c, k) ∷ ss) w s (new, news) (apart, d) (n, ns) l =
    subscribe_all-keeps msg ss (subscribe_event c msg k w) s (still_new msg c k w new ss apart news)
      d ns (subscribe_event-keeps msg c k w new s (λ e. n (sym e)) l)

-- What the subscriptions leave.
pub record Subscribed (msg : ℕ) (ss : List (ℕ × ℕ)) (w v : World) : Type 0 where
  pub listen : All (Listens msg v) ss
  pub listed : receivers v.broker msg ≡ receivers w.broker msg ++ map (λ s. s.0) ss
  pub alive : v.alive ≡ w.alive
  pub executor : v.executor ≡ w.executor
  pub poly_ref : v.poly_ref ≡ w.poly_ref
  pub home : (d : ℕ) → executor_of v d ≡ executor_of w d

pub subscribe_all-Subscribed :
    (msg : ℕ) (ss : List (ℕ × ℕ)) (w : World)
    → All (IsNewTo msg w) ss
    → AreDistinct ss
    → Subscribed msg ss w (subscribe_all msg ss w)
unfolding subscribe_all
subscribe_all-Subscribed msg [] w news d = record {
  listen = tt;
  listed = sym (append-nil (receivers w.broker msg));
  alive = refl;
  executor = refl;
  poly_ref = refl;
  home = λ d. refl;
}
subscribe_all-Subscribed msg ((c, k) ∷ ss) w (new, news) (apart, d) =
    let w1 = subscribe_event c msg k w in
    let news1 = still_new msg c k w new ss apart news in
    let rest = subscribe_all-Subscribed msg ss w1 news1 d in
    let (listed, alive, executor, poly_ref, home) = subscribe_event-kept msg c k w new in
    record {
      listen = (
        subscribe_all-keeps msg ss w1 (c, k) news1 d apart (subscribe_event-Listens msg c k w new),
        rest.listen,
      );
      listed =
          rest.listed
          ∙ ap (λ l. l ++ map (λ s. s.0) ss) listed
          ∙ append_assoc (receivers w.broker msg) (c ∷ []) (map (λ s. s.0) ss);
      alive = rest.alive ∙ alive;
      executor = rest.executor ∙ executor;
      poly_ref = rest.poly_ref ∙ poly_ref;
      home = λ n. rest.home n ∙ home n;
    }
