-- ===== src/Messaging.antt =====
-- include/minicomps/messaging.h: what a message is declared as, the types that its handlers have, and
-- the objects that keep handlers of any type.
pub mod Casts
use minicomps.Prelude.{ℕ, Option, none, some, List, [], ◌∷◌, ◌++◌, map, Map, find, put}

-- A signature `R(Args...)`; types are named by numbers.
pub record Signature : Type 0 where
  pub result : ℕ
  pub arguments : List ℕ

-- The parameters of the functions that handlers and callbacks are: a type itself, `callback_result<R>&&`,
-- `std::function<void(concrete_result<R>&&)>&&`, and `const EventType&`.
pub data Parameter : Type 0 where
  plain callback_result continuation reference : ℕ → Parameter

-- The type of a function; `none` is `void`.
pub record FunctionType : Type 0 where
  pub result : Option ℕ
  pub parameters : List Parameter

-- `signature_util`
unfoldable pub callback_signature : Signature → FunctionType
callback_signature s = record {
  result = none;
  parameters = map Parameter.plain s.arguments ++ Parameter.continuation s.result ∷ [];
}

unfoldable pub callback_inner_signature : Signature → FunctionType
callback_inner_signature s = record {
  result = none;
  parameters = map Parameter.plain s.arguments ++ Parameter.callback_result s.result ∷ [];
}

unfoldable pub return_type : Signature → ℕ
return_type s = s.result

-- The function type that a signature itself is.
unfoldable pub function_type : Signature → FunctionType
function_type s = record { result = some s.result; parameters = map Parameter.plain s.arguments }

unfoldable pub event_type : ℕ → FunctionType
event_type e = record { result = none; parameters = Parameter.reference e ∷ [] }

-- The subclasses of `message_handler`.
pub data MessageHandler : Type 0 where
  message_handler_impl message_handler_async_impl : Signature → MessageHandler
  message_handler_event_impl : (event : ℕ) → MessageHandler

-- The type of the object that `get_handler_ptr` points to, which its result, a `void*`, forgets.
unfoldable pub handler : MessageHandler → FunctionType
handler (message_handler_impl s) = function_type s
handler (message_handler_async_impl s) = callback_inner_signature s
handler (message_handler_event_impl e) = event_type e

-- `DECLARE_QUERY`, `DECLARE_EVENT`, and `DECLARE_INTERFACE`. A message type is named by a number.
pub data Declaration : Type 0 where
  query : Signature → Declaration
  event interface : Declaration

-- `handler_type` and `async_handler_type` of the class `query_info_...`.
unfoldable pub handler_type : Signature → FunctionType
handler_type s = handler (message_handler_impl s)

unfoldable pub async_handler_type : Signature → FunctionType
async_handler_type s = handler (message_handler_async_impl s)

-- `message_info`
pub record MessageInfo : Type 0 where
  pub name : ℕ
  pub id : ℕ

-- What the compiler fixes: the declaration of each message type, and the address of the static
-- variable `uniq` of its `MESSAGE_DEFINITION`.
pub record Program : Type 0 where
  pub declaration : ℕ → Declaration
  pub uniq : ℕ → ℕ

unfoldable pub get_message_id : Program → ℕ → ℕ
get_message_id p m = p.uniq m

unfoldable pub get_message_info : Program → ℕ → MessageInfo
get_message_info p m = record { name = m; id = get_message_id p m }
