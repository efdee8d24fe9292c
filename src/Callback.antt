-- ===== src/Callback.antt =====
-- The data of include/minicomps/callback.h and of the closures that the queries pass around.
use minicomps.Prelude.{ℕ, Option}

-- A `std::function` that takes a result: empty, given by the user, the promise of a coroutine, or the
-- lambda of `with_successful_callback` over an outer result and a callback of the user.
pub data Callback : Type 0 where
  empty : Callback
  user promise : ℕ → Callback
  successful : (outer callback : ℕ) → Callback

-- `callback_result`. `none` is a null executor, or a weak pointer that owns nothing.
pub record CallbackResult : Type 0 where
  pub msg_info : ℕ
  pub receiving_executor : Option ℕ
  pub lifetime_ptr : Option ℕ
  pub sender_component : ℕ
  pub target_component : ℕ
  pub callback : Callback

-- The constructor, with its parameters in their order.
abbrev pub new_result :
    (receiving_executor lifetime_ptr : Option ℕ) (target_component sender_component msg_info : ℕ)
    (callback : Callback)
    → CallbackResult
new_result executor lifetime target sender msg callback = record {
  msg_info = msg;
  receiving_executor = executor;
  lifetime_ptr = lifetime;
  sender_component = sender;
  target_component = target;
  callback = callback;
}

-- A handler object: a callable of the user; the lambda of `prepend_async_query_filter` over a filter
-- and the handler object that it took from the address `at`; or the lambda of `prepend_filter` of an
-- interface query over a filter and the previous handler.
pub data Handler : Type 0 where
  code : ℕ → Handler
  filtered : (filter at : ℕ) → Handler → Handler
  wrapped : (filter : ℕ) → Handler → Handler

-- `request_data`. `receiver` and `sender` are those of the response.
pub record RequestData : Type 0 where
  pub arguments : ℕ
  pub callback : Callback
  pub receiver_executor : Option ℕ
  pub lifetime : Option ℕ
  pub receiver : ℕ
  pub sender : ℕ

-- `response_data`
pub record ResponseData : Type 0 where
  pub result : ℕ
  pub callback : Callback
  pub lifetime : Option ℕ

-- What the library puts into an executor; `work` is a task that the program enqueues itself. The
-- first field of `request` and `event` is the address of the handler object, that of `if_request` is
-- the query of the implementation.
pub data Task : Type 0 where
  request : (handler msg : ℕ) → RequestData → Task
  if_request : (linked_query msg : ℕ) → RequestData → Task
  response : ResponseData → Task
  event : (handler event : ℕ) → Task
  work : ℕ → Task
