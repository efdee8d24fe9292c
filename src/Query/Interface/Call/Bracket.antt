-- ===== src/Query/Interface/Call/Bracket.antt =====
-- Calls of the synchronous queries of an interface: `call_locking` and `call_same_thread` of
-- if_volatile_sync_query.h and `operator()` of if_sync_query.h, on a client's copy.
use minicomps.Prelude.{
  ℕ, ◌+◌, ◌≡◌, ◌≢◌, refl, ap, ◌∙◌, Bool, false, List, [], ◌∷◌, ◌++◌, some, ok, abort, Cmd,
  append_assoc, arith, ◌==◌,
}
use minicomps.Component.{MessageType, request, locked_request, locked_response}
use minicomps.Callback.{Handler}
use minicomps.World.{
  World, UserCode, Entry, QueryKind, async, sync, volatile, locked, unlocked, on_invoke, run_sync,
  note, set_component,
}
use minicomps.World.Effects.{heard, with_log}
use minicomps.Query.Sync.{lock_component}
use minicomps.Query.Sync.Bracket.{
  depth, unlock_component-released, released, released-depth, invoked-heard,
}
use minicomps.Query.Interface.Copies.{IsCopy, calls_directly}
use minicomps.Query.Interface.Call.{link, call_under_lock, call_locking, call_same_thread}
use minicomps.Query.Interface.Call.RoundTrip.{executor_of, may_call_directly-false}

-- A copy of any class calls through the lock or the queue if the executor is not the client's.
calls_directly-false :
    (k : QueryKind) (w : World) (c : ℕ) (b : Bool)
    → b ≡ false
    → calls_directly k (w.component c) b ≡ false
unfolding calls_directly
calls_directly-false async w c b e = may_call_directly-false (w.component c) b e
calls_directly-false sync w c b e = e
calls_directly-false volatile w c b e = e

-- What a call through the copy `i` starts with.
link-copy :
    (k : QueryKind) (i j c x s : ℕ) (h : Handler) (w : World)
    → IsCopy k w j c x s (w.if_query i)
    → (w.if_query j).handler ≡ some h
    → link i w ≡ ok (record { query = j; handler = h; sender = s; receiver = c }) w
unfolding link
link-copy k i j c x s h w q e = rw (link, q.exists, q.linked, e, q.sender, q.component) refl

-- What the listener of the component `c` hears of a call by `s`, and of its response.
abbrev pub heard_call : (s c msg : ℕ) → MessageType → World → List Entry
heard_call s c msg type w = heard (w.component c).listener (λ l. on_invoke l s c msg type)

abbrev pub heard_response : (s c msg : ℕ) → MessageType → World → List Entry
heard_response s c msg type w = heard (w.component c).listener (λ l. on_invoke l c s msg type)

-- The state in which the handler starts.
abbrev pub entered : (s c msg : ℕ) → World → World
entered s c msg w = lock_component c (with_log w (heard_call s c msg locked_request w))

-- A client calls a synchronous query through its copy, and the component that handles it works on
-- another executor. The handler and then the client's use of the answer run while that component's
-- lock is held: if both end, and leave the lock as deep as they found it, the call ends with what the
-- use made of the answer, the lock is as before the call, and what happened is in this order: the
-- request, the locking, what the two did, the unlocking, the response.
pub call_locking-entered :
    (u : UserCode) (k : QueryKind) (i j c x s arguments a b : ℕ) (h : Handler)
    (use_result : ℕ → Cmd World ℕ) (es : List Entry) (w v v' : World)
    → IsCopy k w j c x s (w.if_query i)
    → (w.if_query j).handler ≡ some h
    → x ≢ executor_of s w
    → run_sync u h arguments (entered s c (w.if_query i).name w) ≡ ok a v
    → use_result a v ≡ ok b v'
    → depth c v' ≡ depth c w + 1
    → v'.log ≡ (entered s c (w.if_query i).name w).log ++ es
    → (w' : World) × (call_locking u i arguments use_result w ≡ ok b w')
      × (depth c w' ≡ depth c w)
      × (w'.log
          ≡ w.log
            ++ heard_call s c (w.if_query i).name locked_request w
            ++ locked c ∷ es
            ++ unlocked c ∷ heard_response s c (w.if_query i).name locked_response w)
unfolding call_locking call_under_lock lock_component note set_component
call_locking-entered u k i j c x s arguments a b h use_result es w v v' q e n runs uses d hl =
    let msg = (w.if_query i).name in
    let listener = (w.component c).listener in
    let told = heard listener (λ l. on_invoke l c s msg locked_response) in
    (
      with_log (released c v') told,
      rw
          (
            call_locking,
            link-copy k i j c x s h w q e,
            q.direct,
            calls_directly-false k w c (x == executor_of s w) (ground arith),
            call_under_lock,
            invoked-heard listener s c msg locked_request w,
            runs,
            uses,
            unlock_component-released c v' (omega (arith, d)),
            invoked-heard listener c s msg locked_response (released c v'),
          )
          refl,
      released-depth c (depth c w) v' d,
      ap (λ l. (l ++ unlocked c ∷ []) ++ told) hl ∙ simp append_assoc,
    )

-- The state in which the handler of a direct call starts.
abbrev pub told : (s c msg : ℕ) → World → World
told s c msg w = with_log w (heard_call s c msg request w)

-- On another executor than the client's the call is refused.
call_same_thread-abort :
    (u : UserCode) (i j c x s arguments : ℕ) (h : Handler) (w : World)
    → IsCopy volatile w j c x s (w.if_query i)
    → (w.if_query j).handler ≡ some h
    → x ≢ executor_of s w
    → call_same_thread u i arguments w ≡ abort
unfolding call_same_thread
call_same_thread-abort u i j c x s arguments h w q e n =
    rw
      (
        call_same_thread,
        link-copy volatile i j c x s h w q e,
        q.direct,
        calls_directly-false volatile w c (x == executor_of s w) (ground arith),
      )
      refl
