-- ===== src/Query/Sync/Bracket.antt =====
-- What happens around a handler that `operator()` of sync_query.h calls.
use minicomps.Prelude.{
  ℕ, ◌+◌, ◌-◌, ◌<◌, ◌≡◌, refl, ap, ◌∙◌, true, false, Option, some, List, [], ◌∷◌, ◌++◌, ok,
  append_assoc, arith, ==_self,
}
use minicomps.Component.{MessageType, request, response, locked_request, locked_response}
use minicomps.Callback.{code}
use minicomps.World.{
  World, UserCode, Entry, locked, unlocked, on_invoke, note, set_component, handler_at, run_sync,
}
use minicomps.World.Effects.{heard, with_log, notify-log}
use minicomps.Query.Sync.{
  SyncQuery, lock_component, unlock_component, invoked, call_plain, call_locked, call_receiver,
}

-- What the listener of the receiver hears of a call, and of its response.
abbrev pub heard_call : SyncQuery → ℕ → MessageType → World → List Entry
heard_call q c type w =
    heard (w.component c).listener (λ l. on_invoke l q.owning_component c q.msg_info type)

abbrev pub heard_response : SyncQuery → ℕ → MessageType → World → List Entry
heard_response q c type w =
    heard (w.component c).listener (λ l. on_invoke l c q.owning_component q.msg_info type)

abbrev pub depth : ℕ → World → ℕ
depth c w = (w.component c).lock_depth

-- The state in which the handler of a receiver on another executor starts.
abbrev pub entered : SyncQuery → ℕ → World → World
entered q c w = lock_component c (with_log w (heard_call q c locked_request w))

pub lock_component-depth : (c : ℕ) (w : World) → depth c (lock_component c w) ≡ depth c w + 1
unfolding lock_component set_component note
lock_component-depth c w = rw (depth, ==_self c) refl

pub invoked-heard :
    (listener : Option ℕ) (sender receiver msg : ℕ) (type : MessageType) (w : World)
    → invoked listener sender receiver msg type w
      ≡ ok tt (with_log w (heard listener (λ l. on_invoke l sender receiver msg type)))
unfolding invoked
invoked-heard listener sender receiver msg type w =
    ap (ok tt) (notify-log listener (λ l. on_invoke l sender receiver msg type) w)

-- The state after the unlocking.
abbrev pub released : ℕ → World → World
released c w =
    note (unlocked c)
      (set_component c (record (w.component c) { lock_depth = (w.component c).lock_depth - 1 }) w)

pub unlock_component-released :
    (c : ℕ) (w : World) → 0 < depth c w → unlock_component c w ≡ ok tt (released c w)
unfolding unlock_component
unlock_component-released c w h = ground arith

pub released-depth : (c n : ℕ) (w : World) → depth c w ≡ n + 1 → depth c (released c w) ≡ n
unfolding note set_component
released-depth c n w h = ground arith

-- A handler on another executor runs while the receiver's lock is held: if it ends, leaves
-- the lock as deep as it found it and only adds to what happened, the call ends with its answer, the lock is as before the call, and what
-- happened is in this order: the request, the locking, what the handler did, the unlocking, the response.
pub call_receiver-entered :
    (u : UserCode) (q : SyncQuery) (c p k arguments a : ℕ) (es : List Entry) (w v : World)
    → (w.mono_ref q.handler).receiver ≡ some c
    → (w.mono_ref q.handler).same_executor ≡ false
    → w.handler p ≡ some (code k)
    → u.sync_handler k arguments (entered q c w) ≡ ok a v
    → depth c v ≡ depth c w + 1
    → v.log ≡ (entered q c w).log ++ es
    → (w' : World) × (call_receiver u q p arguments w ≡ ok a w')
      × (depth c w' ≡ depth c w)
      × (w'.log
          ≡ w.log
            ++ heard_call q c locked_request w
            ++ locked c ∷ es
            ++ unlocked c ∷ heard_response q c locked_response w)
unfolding call_receiver call_locked handler_at run_sync lock_component note set_component
call_receiver-entered u q c p k arguments a es w v hc hs h runs d hl = (
  left,
  rw
      (
        call_receiver,
        hc,
        hs,
        call_locked,
        invoked-heard (w.component c).listener q.owning_component c q.msg_info locked_request w,
        handler_at,
        h,
        run_sync,
        runs,
        unlock_component-released c v (omega (arith, d)),
        invoked-heard (w.component c).listener c q.owning_component q.msg_info locked_response
            (released c v),
      )
      refl,
  released-depth c (depth c w) v d,
  ap (λ l. (l ++ unlocked c ∷ []) ++ heard_response q c locked_response w) hl ∙ simp append_assoc,
)
  where
    left : World
    left = with_log (released c v) (heard_response q c locked_response w)

-- A handler on the sender's executor runs without the lock: if it ends, the call ends with its answer,
-- in the state that the handler left but for what the listener hears, which is the request before what
-- the handler did and the response after it.
call_receiver-call_plain :
    (u : UserCode) (q : SyncQuery) (c p k arguments a : ℕ) (es : List Entry) (w v : World)
    → (w.mono_ref q.handler).receiver ≡ some c
    → (w.mono_ref q.handler).same_executor ≡ true
    → w.handler p ≡ some (code k)
    → u.sync_handler k arguments (with_log w (heard_call q c request w)) ≡ ok a v
    → v.log ≡ w.log ++ heard_call q c request w ++ es
    → (call_receiver u q p arguments w ≡ ok a (with_log v (heard_response q c response w)))
      × (v.log ++ heard_response q c response w
          ≡ w.log ++ heard_call q c request w ++ es ++ heard_response q c response w)
unfolding call_receiver call_plain handler_at run_sync
call_receiver-call_plain u q c p k arguments a es w v hc hs h runs hl = (
  rw
      (
        call_receiver,
        hc,
        hs,
        call_plain,
        invoked-heard (w.component c).listener q.owning_component c q.msg_info request w,
        handler_at,
        h,
        run_sync,
        runs,
        invoked-heard (w.component c).listener c q.owning_component q.msg_info response v,
      )
      refl,
  ap (λ l. l ++ heard_response q c response w) hl ∙ simp append_assoc,
)
