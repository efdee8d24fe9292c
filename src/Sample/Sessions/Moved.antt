-- ===== src/Sample/Sessions/Moved.antt =====
-- The answer to an authentication that meets other sessions than those at the call: session.cpp and
-- session_system_impl.cpp together.
use minicomps.Prelude.{ℕ, ◌≡◌, ◌≢◌, refl, true, some, List, suc, ap, ◌∙◌, ◌∷◌, ok, arith, ==_self}
use minicomps.Sample.Sessions.{
  Session, Application, set_sessions, erase, erase_at, at, destroy_session, destroy_loop,
}
use minicomps.Sample.Sessions.Authenticate.{
  success, check_user, find_session, find_from, set_authenticated,
}

abbrev sessions : Application → List Session
sessions a = a.session_system.active_sessions

abbrev pub logged_in : Session → Session
logged_in s = record s { authenticated = true }

check_user-marks :
    (iter password : ℕ) (a : Application) (xs : List Session) (x : Session)
    → sessions a ≡ xs
    → at iter xs ≡ some x
    → (b : Application) × (check_user iter password (some (record { password = password })) a
        ≡ ok success b)
      × (sessions b ≡ set_authenticated iter xs)
unfolding check_user set_sessions
check_user-marks iter password a xs x e h = (
  set_sessions (set_authenticated iter) a,
  rw (check_user, ==_self password, ap (at iter) e ∙ h) refl,
  ap (set_authenticated iter) e,
)

at_first : (first : Session) (ss : List Session) → at 0 (first ∷ ss) ≡ some first
unfolding at
at_first first ss = refl

erase_at-rest : (first : Session) (ss : List Session) → erase_at 0 (first ∷ ss) ≡ ss
unfolding erase_at
erase_at-rest first ss = refl

erase-rest :
    (a : Application) (first : Session) → sessions (erase 0 first a) ≡ erase_at 0 (sessions a)
unfolding erase set_sessions
erase-rest a first = refl

destroy_session-first :
    (n : ℕ) (a : Application) (first : Session) (ss : List Session)
    → sessions a ≡ first ∷ ss
    → (c : Application) × (destroy_session (suc n) first.id a ≡ some c) × (sessions c ≡ ss)
unfolding destroy_session destroy_loop
destroy_session-first n a first ss e = (
  erase 0 first a,
  rw (destroy_session, destroy_loop, ap (at 0) e ∙ at_first first ss, ==_self first.id) refl,
  erase-rest a first ∙ ap (erase_at 0) e ∙ erase_at-rest first ss,
)

find_session-second :
    (a : Application) (first s : Session) (ss : List Session)
    → sessions a ≡ first ∷ s ∷ ss
    → first.id ≢ s.id
    → find_session s.id a ≡ some 1
unfolding find_session find_from
find_session-second a first s ss e d = rw (find_session, e) (ground arith)

-- The second session asks for a user, and the right password comes back. If nothing has happened to the
-- sessions meanwhile, the answer marks that session and no other. But if the oldest session has been
-- destroyed meanwhile, it marks the session after the one that asked, which stays unmarked.
pub check_user-destroy_session :
    (n password : ℕ) (a : Application) (first s t : Session) (ss : List Session)
    → a.session_system.active_sessions ≡ first ∷ s ∷ t ∷ ss
    → first.id ≢ s.id
    → (iter : ℕ) × (find_session s.id a ≡ some iter)
      × ((b : Application) × (check_user iter password (some (record { password = password })) a
            ≡ ok success b)
          × (b.session_system.active_sessions ≡ first ∷ logged_in s ∷ t ∷ ss))
      × (c : Application) × (destroy_session (suc n) first.id a ≡ some c)
      × (b : Application) × (check_user iter password (some (record { password = password })) c
          ≡ ok success b)
      × (b.session_system.active_sessions ≡ s ∷ logged_in t ∷ ss)
unfolding at set_authenticated
check_user-destroy_session n password a first s t ss e d =
    let (c, destroyed, left) = destroy_session-first n a first (s ∷ t ∷ ss) e in
    let (b, fresh, marked) = check_user-marks 1 password c (s ∷ t ∷ ss) t left refl in
    (
      1,
      find_session-second a first s (t ∷ ss) e d,
      check_user-marks 1 password a (first ∷ s ∷ t ∷ ss) s e refl,
      c,
      destroyed,
      b,
      fresh,
      marked,
    )
