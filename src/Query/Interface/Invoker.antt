-- ===== src/Query/Interface/Invoker.antt =====
-- `query_invoker` of include/minicomps/if_async_query.h: the calls of an asynchronous interface query.
use minicomps.Prelude.{ℕ, Option, Cmd}
use minicomps.Callback.{Callback, empty, successful}
use minicomps.Lifetime.{create_weak_ptr}
use minicomps.World.{World, UserCode}
use minicomps.Query.Interface.Call

-- `query_invoker`; its field `sender_` is never set or read.
pub record QueryInvoker : Type 0 where
  pub if_async_query : ℕ
  pub lifetime : Option ℕ
  pub callback : Callback
  pub arguments : ℕ

unfoldable pub call : ℕ → ℕ → World → QueryInvoker
call i arguments w = record {
  if_async_query = i;
  lifetime = (w.if_query i).sending_lifetime;
  callback = empty;
  arguments = arguments;
}

unfoldable pub with_lifetime : QueryInvoker → ℕ → World → QueryInvoker
with_lifetime v life w = record v { lifetime = create_weak_ptr w.lifetimes life }

unfoldable pub with_callback : QueryInvoker → Callback → QueryInvoker
with_callback v callback = record v { callback = callback }

unfoldable pub with_successful_callback : QueryInvoker → ℕ → ℕ → QueryInvoker
with_successful_callback v outer callback = with_callback v (successful outer callback)

-- The destructor.
unfoldable pub destroy : UserCode → QueryInvoker → Cmd World (Unit {0})
destroy u v = Call.execute u v.if_async_query v.callback v.lifetime v.arguments
