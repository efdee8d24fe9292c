-- ===== src/Sample/Sessions.antt =====
-- session.h, session.cpp and session_system_impl.cpp of test/sample_application/session_system.
pub mod Create
pub mod Destroy
pub mod Numbered
pub mod Authenticate
pub mod Moved
use minicomps.Prelude.{
  ℕ, zero, suc, ◌+◌, Bool, true, false, Option, none, some, List, [], ◌∷◌, ◌++◌, map, ◌==◌, ltb,
  if◌then◌else◌, Outcome, Cmd, ok, abort, undefined, ◌>>=◌, ◌>>◌, modify, pure,
}
use minicomps.Lifetime
use minicomps.World.{World, UserCode}
use minicomps.Query.Event
use minicomps.Query.Event.{EventSource}
use minicomps.Base.Refer.{clone_interface}

-- `lifetime` is the lifetime object of the session, `user_system` its own reference.
pub record Session : Type 0 where
  pub id : ℕ
  pub lifetime : ℕ
  pub user_system : ℕ
  pub authenticated : Bool

-- The fields of `session_system_impl` besides those of the component.
pub record SessionSystem : Type 0 where
  pub user_system : ℕ
  pub event_session_created : EventSource
  pub active_sessions : List Session
  pub next_session_id : ℕ

-- `next_lifetime` names the lifetime object that is made next.
pub record Application : Type 0 where
  pub world : World
  pub session_system : SessionSystem
  pub next_lifetime : ℕ

abbrev pub max_int : ℕ
max_int = 2147483647

abbrev pub in_world : {A : Type 0} → Application → Outcome World A → Outcome Application A
in_world a (ok x w) = ok x (record a { world = w })
in_world a abort = abort
in_world a undefined = undefined

unfoldable pub on_world : {A : Type 0} → Cmd World A → Cmd Application A
on_world c a = in_world a (c a.world)

unfoldable pub set_sessions : (List Session → List Session) → Application → Application
set_sessions f a = record a {
  session_system = record a.session_system { active_sessions = f a.session_system.active_sessions };
}

-- The constructor of `session`: its lifetime first, then the reference that is made for it.
unfoldable pub new_session : ℕ → Cmd Application Session
new_session id a =
    let l = a.next_lifetime in
    (do
      modify (λ b. record b {
        world = record b.world { lifetimes = Lifetime.reset l b.world.lifetimes };
        next_lifetime = l + 1;
      })
      r ← on_world (clone_interface a.session_system.user_system l)
      pure (record { id = id; lifetime = l; user_system = r; authenticated = false }))
      a

-- `next_session_id_++`, which must not overflow.
unfoldable pub next_id : Cmd Application ℕ
next_id a =
    if ltb a.session_system.next_session_id max_int
    then ok a.session_system.next_session_id (record a {
      session_system = record a.session_system {
        next_session_id = a.session_system.next_session_id + 1;
      };
    })
    else undefined

unfoldable pub push_back : Session → Cmd Application (Unit {0})
push_back s = modify (set_sessions (λ ss. ss ++ s ∷ []))

-- The call of the event, and the value of the coroutine.
unfoldable pub announce : UserCode → ℕ → Cmd Application ℕ
announce u id a =
    (on_world (Event.publish u a.session_system.event_session_created id) >> pure id) a

-- The handlers of the event see the new session.
unfoldable pub create_session : UserCode → Cmd Application ℕ
create_session u = next_id >>= λ id. (new_session id >>= λ s. push_back s >> announce u id)

unfoldable pub at : ℕ → List Session → Option Session
at i [] = none
at zero (s ∷ ss) = some s
at (suc i) (s ∷ ss) = at i ss

unfoldable pub erase_at : ℕ → List Session → List Session
erase_at i [] = []
erase_at zero (s ∷ ss) = ss
erase_at (suc i) (s ∷ ss) = s ∷ erase_at i ss

-- `active_sessions_.erase(iter)` destroys the lifetime of the session that it removes.
unfoldable pub erase : ℕ → Session → Application → Application
erase iter s a = set_sessions (erase_at iter) (record a {
  world = record a.world { lifetimes = Lifetime.destroy s.lifetime a.world.lifetimes };
})

-- The loop of `destroy_session`, which does not advance `iter`; `none` is a run that has not ended
-- after that many turns.
unfoldable pub destroy_loop : (turns iter id : ℕ) → Application → Option Application
destroy_loop zero iter id a = none
destroy_loop (suc n) iter id a =
    let rest = destroy_loop n iter id a in
    elim (at iter a.session_system.active_sessions) [
      | none ↦ some a
      | some s ↦ if s.id == id then some (erase iter s a) else rest
    ]

unfoldable pub destroy_session : (turns session_id : ℕ) → Application → Option Application
destroy_session turns id a = destroy_loop turns 0 id a

unfoldable pub get_sessions : Application → List ℕ
get_sessions a = map (λ (s : Session). s.id) a.session_system.active_sessions
