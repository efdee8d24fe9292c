-- ===== src/Query/Interface.antt =====
-- The queries of an interface, on the side that implements it and as the local copies that a client
-- calls: if_async_query.h, if_sync_query.h and if_volatile_sync_query.h. A member of an interface is of
-- one of the three classes.
pub mod Shared
pub mod AsyncQuery
pub mod SyncQuery
pub mod VolatileQuery
pub mod Call
pub mod Invoker
pub mod Copies
pub mod Reference
use minicomps.Prelude.{ℕ, Option, Cmd}
use minicomps.Callback.{Handler}
use minicomps.World.{World, IfQuery, QueryKind, async, sync, volatile}
use minicomps.Query.Interface.AsyncQuery
use minicomps.Query.Interface.SyncQuery
use minicomps.Query.Interface.VolatileQuery

-- The copy constructor of the class of a member.
unfoldable pub copy_query : World → ℕ → Option IfQuery
copy_query w i = elim (w.if_query i).kind [
  | async ↦ AsyncQuery.copy w i
  | sync ↦ SyncQuery.copy w i
  | volatile ↦ VolatileQuery.copy w i
]
