-- ===== src/Sample/Sessions/Authenticate.antt =====
-- The authentication of sessions: session.cpp and session_system_impl.cpp of
-- test/sample_application/session_system. A name and a password are numbers.
use minicomps.Prelude.{
  ℕ, zero, suc, ◌+◌, Bool, true, false, Option, none, some, List, [], ◌∷◌, ◌==◌, if◌then◌else◌, Cmd,
  ok, undefined, ◌>>=◌,
}
use minicomps.World.{World, UserCode}
use minicomps.Query.Interface.Call.{run_coroutine}
use minicomps.Query.Interface.Reference.{arrow}
use minicomps.Sample.Sessions.{Session, Application, at, set_sessions, on_world, get_sessions}

-- `user_info` of user_system.h, of which only the password is read.
pub record UserInfo : Type 0 where
  pub password : ℕ

-- `mc::result<void>`; `failure n` is `mc::failure(-n)`.
pub data Result : Type 0 where
  success : Result
  failure : ℕ → Result

unfoldable pub find_from : (iter id : ℕ) → List Session → Option ℕ
find_from iter id [] = none
find_from iter id (s ∷ ss) =
    let rest = find_from (iter + 1) id ss in if s.id == id then some iter else rest

-- The address of a session is its position in `active_sessions_`.
unfoldable pub find_session : ℕ → Application → Option ℕ
find_session id a = find_from 0 id a.session_system.active_sessions

unfoldable pub set_authenticated : ℕ → List Session → List Session
set_authenticated iter [] = []
set_authenticated zero (s ∷ ss) = record s { authenticated = true } ∷ ss
set_authenticated (suc iter) (s ∷ ss) = s ∷ set_authenticated iter ss

-- The lambda that `authenticate` passes to `then`, where `this` is the session at `iter`. Its output is
-- left out.
unfoldable pub check_user : (iter password : ℕ) → Option UserInfo → Cmd Application Result
check_user iter password none a = ok (failure 2) a
check_user iter password (some user) a =
    if user.password == password
    then elim (at iter a.session_system.active_sessions) [
      | none ↦ undefined
      | some s ↦ ok success (set_sessions (set_authenticated iter) a)
    ]
    else ok (failure 1) a

-- `get_user` is the second query of the interface of the user system.
unfoldable pub get_user : UserCode → (username p : ℕ) → List ℕ → Cmd World (Unit {0})
get_user u username p [] = λ w. undefined
get_user u username p (create_user ∷ []) = λ w. undefined
get_user u username p (create_user ∷ q ∷ qs) = run_coroutine u q username p

-- `session::authenticate`: its call, whose result goes to the promise `p` that minicoros makes of
-- `check_user` and the promise of the caller.
unfoldable pub authenticate : UserCode → Session → (username p : ℕ) → Cmd Application (Unit {0})
authenticate u s username p =
    on_world (arrow (record { ref = s.user_system }) >>= get_user u username p)

-- `authenticate_session`: `p` as above, and `rejected` the result `mc::failure(-1)` for the promise
-- `outer` of the caller.
unfoldable pub authenticate_session :
    UserCode → (id username p outer rejected : ℕ) → Cmd Application (Unit {0})
authenticate_session u id username p outer rejected a = elim (find_session id a) [
  | none ↦ on_world (u.promise outer rejected) a
  | some iter ↦ elim (at iter a.session_system.active_sessions) [
    | none ↦ undefined
    | some s ↦ authenticate u s username p a
  ]
]

unfoldable pub has_session : (username : ℕ) → Bool
has_session username = false

-- The list that the reference refers to.
unfoldable pub get_sessions_ref : Application → List ℕ
get_sessions_ref a = get_sessions a
