-- ===== src/Query/Result.antt =====
-- include/minicomps/callback.h: how a handler reports its result, and the lambda of
-- `with_successful_callback` in async_query.h.
pub mod Once
pub mod Cancel
use minicomps.Prelude.{ℕ, Bool, none, some, if◌then◌else◌, Cmd, ok, abort, pure, ◌>>◌}
use minicomps.Component.{response}
use minicomps.Callback.{
  Callback, empty, user, promise, successful, CallbackResult, ResponseData, Task,
}
use minicomps.World.{World, UserCode, on_enqueue, on_invoke, notify, enqueue, expired_lifetime}

-- The call of the `std::function`; without exceptions the call of an empty one aborts.
unfoldable pub run_callback : UserCode → Callback → ℕ → Cmd World (Unit {0})
run_callback u empty result = λ _. abort
run_callback u (user k) result = u.callback k result
run_callback u (promise k) result = u.promise k result
run_callback u (successful outer callback) result =
    if u.is_success result
    then u.succeed callback (u.get_value result) outer
    else u.fail outer (u.get_failure result)

-- What is left of a `callback_result` whose callback and lifetime have been moved out.
abbrev pub spent : CallbackResult → CallbackResult
spent r = record r { lifetime_ptr = none; callback = empty }

-- `operator()`. The answer is the `callback_result` after the call.
unfoldable pub report : UserCode → CallbackResult → ℕ → Cmd World CallbackResult
report u r result = elim r.receiving_executor [
  | some x ↦ λ w.
      (let w1 =
          enqueue x
            (Task.response
              (record { result = result; callback = r.callback; lifetime = r.lifetime_ptr }))
            w in
        ok (spent r) (
          notify (w1.component r.target_component).listener
            (λ l. on_enqueue l r.sender_component r.target_component r.msg_info response) w1))
  | none ↦ λ w.
      if expired_lifetime w r.lifetime_ptr
      then ok r w
      else (run_callback u r.callback result >> pure r) (
          notify (w.component r.target_component).listener
            (λ l. on_invoke l r.sender_component r.target_component r.msg_info response) w)
]

unfoldable pub canceled : CallbackResult → World → Bool
canceled r w = expired_lifetime w r.lifetime_ptr

-- The task that `operator()` enqueues.
unfoldable pub run_response : UserCode → ResponseData → Cmd World (Unit {0})
run_response u d w =
    if expired_lifetime w d.lifetime then ok tt w else run_callback u d.callback d.result w
