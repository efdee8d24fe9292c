-- ===== src/Sample/Sessions/Destroy.antt =====
-- When `destroy_session` of session_system_impl.cpp returns, and what it makes void.
use minicomps.Prelude.{
  ℕ, zero, suc, ◌≡◌, refl, Bool, true, false, none, some, List, [], ◌∷◌, ok, ◌==◌, if◌then◌else◌,
  Bool-cases, ==_self, ap, ◌∙◌, inl, inr,
}
use minicomps.Callback.{ResponseData}
use minicomps.Lifetime
use minicomps.Lifetime.{create_weak_ptr}
use minicomps.Lifetime.Expiry.{owned_by_other, expired-destroy}
use minicomps.World.{UserCode}
use minicomps.Query.Result.{run_response}
use minicomps.Sample.Sessions.{
  Session, Application, at, erase_at, erase, set_sessions, destroy_loop, destroy_session,
}

-- Whether the loop ever ends: there is no session, or the oldest one is the one to destroy.
abbrev pub ends : ℕ → List Session → Bool
ends id [] = true
ends id (s ∷ ss) = s.id == id

abbrev pub remaining : List Session → List Session
remaining [] = []
remaining (s ∷ ss) = ss

-- A turn that meets another session leads to the same turn again.
turn :
    (n iter id : ℕ) (a : Application) (s : Session)
    → at iter a.session_system.active_sessions ≡ some s
    → (s.id == id) ≡ false
    → destroy_loop (suc n) iter id a ≡ destroy_loop n iter id a
unfolding destroy_loop
turn n iter id a s e h = rw (destroy_loop, e, h) refl

stuck :
    (n iter id : ℕ) (a : Application) (s : Session)
    → at iter a.session_system.active_sessions ≡ some s
    → (s.id == id) ≡ false
    → destroy_loop n iter id a ≡ none
unfolding destroy_loop
stuck zero iter id a s e h = refl
stuck (suc n) iter id a s e h = turn n iter id a s e h ∙ stuck n iter id a s e h

-- What is left when it ends.
abbrev pub destroyed : List Session → Application → Application
destroyed [] a = a
destroyed (s ∷ ss) a = record a {
  world = record a.world { lifetimes = Lifetime.destroy s.lifetime a.world.lifetimes };
  session_system = record a.session_system { active_sessions = ss };
}

turns :
    (n id : ℕ) (a : Application) (ss : List Session)
    → a.session_system.active_sessions ≡ ss
    → destroy_session (suc n) id a ≡ (if ends id ss then some (destroyed ss a) else none)
unfolding destroy_session destroy_loop at erase erase_at set_sessions
turns n id a [] e = rw (e, at) refl
turns n id a (s ∷ ss) e = elim (Bool-cases (s.id == id)) [
  | inl h ↦ rw (e, at, h, erase_at) refl
  | inr h ↦ rw h (stuck (suc n) 0 id a s (ap (at 0) e) h)
]

-- `destroy_session` returns exactly if there is no session or the oldest one has the id: then one turn
-- of the loop is enough, and it removes that session and its lifetime. For any other id the loop never
-- ends, whether there is such a session or not.
pub destroy_session-ends :
    (n id : ℕ) (a : Application)
    → let ss = a.session_system.active_sessions in
      destroy_session (suc n) id a ≡ (if ends id ss then some (destroyed ss a) else none)
destroy_session-ends n id a = turns n id a a.session_system.active_sessions refl

-- A response that waits for the oldest session when that is destroyed, tied to a block of its lifetime
-- that no other lifetime object owns, does nothing when it runs.
pub destroy_session-run_response :
    (u : UserCode) (d : ResponseData) (n t : ℕ) (a : Application) (s : Session) (ss : List Session)
    → a.session_system.active_sessions ≡ s ∷ ss
    → d.lifetime ≡ some t
    → owned_by_other s.lifetime t a.world.lifetimes.objects ≡ false
    → (b : Application) × (destroy_session (suc n) s.id a ≡ some b)
      × (run_response u d b.world ≡ ok tt b.world)
unfolding run_response
destroy_session-run_response u d n t a s ss e l o = (
  destroyed (s ∷ ss) a,
  destroy_session-ends n s.id a ∙ rw (e, ==_self s.id) refl,
  rw (l, expired-destroy s.lifetime t a.world.lifetimes, o) refl,
)
