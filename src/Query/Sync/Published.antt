-- ===== src/Query/Sync/Published.antt =====
-- From the publishing of a synchronous query to the answer of a call of it: component_base.h, mono_ref.h
-- and sync_query.h together.
use minicomps.Prelude.{
  ℕ, ◌≡◌, ◌≢◌, refl, sym, ap, ◌∙◌, true, false, none, some, [], ◌∷◌, ◌++◌, ok, find, if◌then◌else◌,
  append-nil, append_assoc, ==_self,
}
use minicomps.Broker.Table.{receivers, receivers-associate}
use minicomps.Component.{locked_request, locked_response}
use minicomps.Callback.{code}
use minicomps.World.{World, UserCode, locked, unlocked, components, set_component}
use minicomps.World.Effects.{with_log}
use minicomps.Ref.Mono
use minicomps.Ref.Mono.{executor_for}
use minicomps.Ref.Mono.Target.{is_cached}
use minicomps.Base.Publish.{
  publish_sync_query, associate_with, new_handler, drop_handler, set_sync_handler,
  add_dependency_info,
}
use minicomps.Base.Publish.Reached.{
  no_receiver, publish_sync_query-lookup, publish_sync_query-fields,
}
use minicomps.Query.Async.Found.{looked_up, lookup_mono-looked_up, looked_up-IsTied, IsTied-other}
use minicomps.Query.Sync.{SyncQuery, invoke}
use minicomps.Query.Sync.Bracket.{
  heard_call, heard_response, depth, entered, lock_component-depth, call_receiver-entered,
}

-- The handler answers at once, with what depends on the arguments only.
abbrev pub Computes : UserCode → ℕ → (ℕ → ℕ) → Type 0
Computes u k f = (arguments : ℕ) (w : World) → u.sync_handler k arguments w ≡ ok (f arguments) w

-- What a call on another executor amounts to.
abbrev pub IsAnswered : UserCode → SyncQuery → (c arguments answer : ℕ) → World → Type 0
IsAnswered u q c arguments answer w =
    (w' : World) × (invoke u q arguments w ≡ ok answer w')
    × (depth c w' ≡ depth c w)
    × (w'.log
        ≡ w.log
          ++ heard_call q c locked_request w
          ++ locked c ∷ unlocked c ∷ heard_response q c locked_response w)

invoke-IsAnswered :
    (u : UserCode) (q : SyncQuery) (p c k arguments : ℕ) (f : ℕ → ℕ) (w : World)
    → let r = w.mono_ref q.handler in
      is_cached w.broker r ≡ false
      → (Mono.lookup (components w) w.broker r).0 ≡ some p
      → receivers w.broker r.msg ≡ c ∷ []
      → r.component ≡ q.owning_component
      → executor_for (w.component c) r.msg ≢ (w.component q.owning_component).default_executor
      → w.handler p ≡ some (code k)
      → Computes u k f
      → IsAnswered u q c arguments (f arguments) w
unfolding invoke
invoke-IsAnswered u q p c k arguments f w miss e l own n h a =
    let v = looked_up q.handler w in
    let t = looked_up-IsTied q.handler c p w miss e l in
    let (w', ran, same, log) =
      call_receiver-entered u q c p k arguments (f arguments) [] v (entered q c v) t.receiver
        (IsTied-other w q.handler c (v.mono_ref q.handler) q.owning_component t own n) h
        (a arguments (entered q c v))
        (lock_component-depth c (with_log v (heard_call q c locked_request v)))
        (sym (append-nil (entered q c v).log)) in
    (
      w',
      rw (lookup_mono-looked_up q.handler p w e) ran,
      same,
      log
          ∙ append_assoc (v.log ++ heard_call q c locked_request v) (locked c ∷ [])
              (unlocked c ∷ heard_response q c locked_response v),
    )

publish_sync_query-refs :
    (c msg k : ℕ) (w : World)
    → find msg (w.component c).sync_handlers ≡ none
    → (publish_sync_query c msg k w).mono_ref ≡ w.mono_ref
unfolding publish_sync_query associate_with new_handler drop_handler set_sync_handler
    add_dependency_info set_component
publish_sync_query-refs c msg k w h = rw h refl

listed_alone :
    (c msg k : ℕ) (w : World)
    → find msg (w.component c).sync_handlers ≡ none
    → receivers w.broker msg ≡ []
    → receivers (publish_sync_query c msg k w).broker msg ≡ c ∷ []
listed_alone c msg k w new alone =
    ap (λ b. receivers b msg) (publish_sync_query-fields c msg k w new).0
    ∙ receivers-associate w.broker msg c msg
    ∙ rw (==_self msg, alone) refl

-- A live component publishes a synchronous query for a message that it has no handler for and that has
-- no receiver, and its handler computes its answer from the arguments. Another component, on another
-- executor, calls it through its reference, which holds nothing cached. The call returns the handler's
-- answer with the lock as before; the listener hears of the request before the lock is taken, and of
-- the response after it is released.
pub publish_sync_query-invoke :
    (u : UserCode) (q : SyncQuery) (c k arguments : ℕ) (f : ℕ → ℕ) (w : World)
    → let r = w.mono_ref q.handler in
      let w0 = publish_sync_query c r.msg k w in
      r.kind ≡ Mono.sync
      → r.component ≡ q.owning_component
      → w.alive c ≡ true
      → find r.msg (w.component c).sync_handlers ≡ none
      → receivers w.broker r.msg ≡ []
      → is_cached w0.broker r ≡ false
      → executor_for (w0.component c) r.msg ≢ (w0.component q.owning_component).default_executor
      → Computes u k f
      → IsAnswered u q c arguments (f arguments) w0
publish_sync_query-invoke u q c k arguments f w kind own live new alone miss n a =
    let r = w.mono_ref q.handler in
    let w0 = publish_sync_query c r.msg k w in
    let ref : w0.mono_ref q.handler ≡ r =
      ap (λ g. g q.handler) (publish_sync_query-refs c r.msg k w new) in
    let (found, at) = publish_sync_query-lookup c k w r kind live new miss in
    invoke-IsAnswered u q w.next_handler c k arguments f w0 (ap (is_cached w0.broker) ref ∙ miss)
      (ap (λ z. (Mono.lookup (components w0) w0.broker z).0) ref
        ∙ found
        ∙ ap (λ l. if no_receiver l then some w.next_handler else none) alone)
      (ap (λ z. receivers w0.broker z.msg) ref ∙ listed_alone c r.msg k w new alone)
      (ap (λ z. z.component) ref ∙ own)
      (λ e. n (sym (ap (λ z. executor_for (w0.component c) z.msg) ref) ∙ e)) at a
