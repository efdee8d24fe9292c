-- ===== src/Tests/Sample.antt =====
-- Two sessions: destroying the second one never ends, destroying the first one makes its callbacks void.
use minicomps.Prelude.{
  ℕ, List, is_some, true, false, suc, ◌≡◌, refl, Option, none, some, [], ◌∷◌, ok, if◌then◌else◌,
  arith,
}
use minicomps.Callback.{user, ResponseData}
use minicomps.Query.Result.{run_response}
use minicomps.Prelude
use minicomps.Broker
use minicomps.World.{set_component}
use minicomps.Ref.Poly
use minicomps.Base.Refer.{clone_interface, add_interface_ref}
use minicomps.Query.Interface.Reference
use minicomps.Query.Event
use minicomps.Query.Event.{lookup_poly, deliver_all}
use minicomps.Sample.Sessions
use minicomps.Sample.Sessions.{
  Session, Application, destroy_session, create_session, next_id, new_session, on_world,
  set_sessions, push_back, announce, destroy_loop, erase_at, get_sessions,
}
use minicomps.Sample.Sessions.Destroy.{destroy_session-ends, destroy_session-run_response}
use minicomps.Sample.Sessions.Authenticate.{success, check_user, find_session}
use minicomps.Sample.Sessions.Moved.{logged_in, check_user-destroy_session}
use minicomps.Sample.Sessions.Numbered.{Request, serve_all, IsNumbered, serve_all-IsNumbered}
use minicomps.Tests.Worlds.{start, quiet}

abbrev first_session : Session
first_session = record { id = 1; lifetime = 1; user_system = 0; authenticated = false }

abbrev second_session : Session
second_session = record { id = 2; lifetime = 2; user_system = 1; authenticated = false }

abbrev two_sessions : Application
two_sessions = record {
  world = record start { lifetimes = record { objects = (1, 5) ∷ (2, 6) ∷ []; next_token = 7 } };
  session_system = record {
    user_system = 0;
    event_session_created = record { handler = 0; owning_component = 1; msg_info = 8 };
    active_sessions = first_session ∷ second_session ∷ [];
    next_session_id = 3;
  };
  next_lifetime = 3;
}

destroy_session-ends_example : destroy_session 1000 2 two_sessions ≡ none
destroy_session-ends_example = destroy_session-ends 999 2 two_sessions

abbrev user_data : ResponseData
user_data = record { result = 21; callback = user 9; lifetime = some 5 }

destroy_session-run_response_example :
    (b : Application) × (destroy_session 1 1 two_sessions ≡ some b)
    × (run_response quiet user_data b.world ≡ ok tt b.world)
destroy_session-run_response_example =
    destroy_session-run_response quiet user_data 0 5 two_sessions first_session
      (second_session ∷ []) refl refl refl

abbrev opening : Application
opening = record two_sessions {
  world = record two_sessions.world { next_interface_ref = 1 };
  session_system = record two_sessions.session_system { active_sessions = []; next_session_id = 1 };
}

-- The first session is destroyed when the second one has been created.
abbrev requests : List Request
requests = Request.creates ∷ Request.creates ∷ Request.destroys 5 1 ∷ []

abbrev state_after : Option Application → Application
state_after none = opening
state_after (some a) = a

abbrev final : Application
final = state_after (serve_all quiet requests opening)

run-final : serve_all quiet requests opening ≡ some final
unfolding serve_all create_session next_id new_session on_world set_sessions push_back announce
    destroy_session destroy_loop Sessions.at erase_at Sessions.erase clone_interface
    add_interface_ref set_component Reference.new Event.publish lookup_poly Poly.lookup Poly.new
    deliver_all Prelude.find Poly.collect Broker.lock Broker.lookup Broker.store Prelude.put
run-final = refl

ids-final : get_sessions final ≡ 2 ∷ []
unfolding serve_all create_session next_id new_session on_world set_sessions push_back announce
    destroy_session destroy_loop Sessions.at erase_at Sessions.erase clone_interface
    add_interface_ref set_component Reference.new Event.publish lookup_poly Poly.lookup Poly.new
    deliver_all Prelude.find Poly.collect Broker.lock Broker.lookup Broker.store Prelude.put
    get_sessions
ids-final = refl

serve_all-IsNumbered_example : IsNumbered final
serve_all-IsNumbered_example = serve_all-IsNumbered quiet requests opening refl refl run-final

-- Sessions 1, 2 and 3, of which the second asks for a user with the password 7.
abbrev third_session : Session
third_session = record { id = 3; lifetime = 3; user_system = 2; authenticated = false }

abbrev three_sessions : Application
three_sessions = record two_sessions {
  session_system = record two_sessions.session_system {
    active_sessions = first_session ∷ second_session ∷ third_session ∷ [];
  };
}

check_user-destroy_session_example :
    (iter : ℕ) × (find_session 2 three_sessions ≡ some iter)
    × ((b : Application) × (check_user iter 7 (some (record { password = 7 })) three_sessions
          ≡ ok success b)
        × (b.session_system.active_sessions
            ≡ first_session ∷ logged_in second_session ∷ third_session ∷ []))
    × (c : Application) × (destroy_session 1 1 three_sessions ≡ some c)
    × (b : Application) × (check_user iter 7 (some (record { password = 7 })) c ≡ ok success b)
    × (b.session_system.active_sessions ≡ second_session ∷ logged_in third_session ∷ [])
check_user-destroy_session_example =
    check_user-destroy_session 0 7 three_sessions first_session second_session third_session [] refl
      (λ e. omega (arith, e))
