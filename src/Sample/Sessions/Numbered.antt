-- ===== src/Sample/Sessions/Numbered.antt =====
-- The ids of the sessions of session_system_impl.cpp.
use minicomps.Prelude.{
  ℕ, zero, suc, ◌+◌, ◌≤◌, ◌≡◌, refl, sym, ap, ◌∙◌, Bool, true, false, Option, none, some, List, [],
  ◌∷◌, ◌++◌, ok, abort, undefined, Outcome, arith, if◌then◌else◌, subst,
}
use minicomps.World.{UserCode}
use minicomps.Sample.Sessions.{Session, Application, create_session, destroy_session, destroy_loop}
use minicomps.Sample.Sessions.Destroy.{ends, destroyed, destroy_session-ends}
use minicomps.Sample.Sessions.Create.{create_session-Created}

-- A call of the component; `destroys` with the turns that its loop is given.
pub data Request : Type 0 where
  creates : Request
  destroys : (turns id : ℕ) → Request

abbrev pub completed : Outcome Application ℕ → Option Application
completed (ok id b) = some b
completed abort = none
completed undefined = none

abbrev pub serve : UserCode → Request → Application → Option Application
serve u Request.creates a = completed (create_session u a)
serve u (Request.destroys n id) a = destroy_session n id a

abbrev pub then_serve : Option Application → (Application → Option Application) → Option Application
then_serve none f = none
then_serve (some a) f = f a

unfoldable pub serve_all : UserCode → List Request → Application → Option Application
serve_all u [] a = some a
serve_all u (r ∷ rs) a = then_serve (serve u r a) (serve_all u rs)

-- The ids ascend from `low` to below `high`.
abbrev pub Ascending : ℕ → ℕ → List Session → Type 0
Ascending low high [] = low ≤ high
Ascending low high (s ∷ ss) = (low ≤ s.id) × Ascending (s.id + 1) high ss

abbrev pub IsNumbered : Application → Type 0
IsNumbered a = Ascending 1 a.session_system.next_session_id a.session_system.active_sessions

Ascending-append :
    (low high : ℕ) (ss : List Session) (s : Session)
    → s.id ≡ high
    → Ascending low high ss
    → Ascending low (high + 1) (ss ++ s ∷ [])
Ascending-append low high [] s e h = (omega (arith, e, h), omega (arith, e))
Ascending-append low high (t ∷ ss) s e (l, h) = (l, Ascending-append (t.id + 1) high ss s e h)

Ascending-lower :
    (low low' high : ℕ) (ss : List Session)
    → low' ≤ low
    → Ascending low high ss
    → Ascending low' high ss
Ascending-lower low low' high [] l h = omega (arith, l, h)
Ascending-lower low low' high (s ∷ ss) l (k, h) = (omega (arith, l, k), h)

Holds : Option Application → Type 0
Holds none = Unit {0}
Holds (some a) = IsNumbered a

create_session-IsNumbered :
    (u : UserCode) (a : Application) (o : Outcome Application ℕ)
    → create_session u a ≡ o
    → IsNumbered a
    → Holds (completed o)
unfolding Holds
create_session-IsNumbered u a (ok id b) e h =
    let c = create_session-Created u a b id e in
    let n = a.session_system.next_session_id in
    subst (λ ss. Ascending 1 b.session_system.next_session_id ss) (sym c.added)
      (subst (λ m. Ascending 1 m (a.session_system.active_sessions ++ c.created ∷ []))
        (sym (c.next ∙ ap (λ m. m + 1) c.answer))
        (Ascending-append 1 n a.session_system.active_sessions c.created (c.named ∙ c.answer) h))
create_session-IsNumbered u a abort e h = tt
create_session-IsNumbered u a undefined e h = tt

destroyed-IsNumbered :
    (c : Bool) (a : Application) (ss : List Session)
    → Ascending 1 a.session_system.next_session_id ss
    → IsNumbered a
    → Holds (if c then some (destroyed ss a) else none)
unfolding Holds
destroyed-IsNumbered false a ss k h = tt
destroyed-IsNumbered true a [] k h = h
destroyed-IsNumbered true a (s ∷ ss) (l, k) h =
    Ascending-lower (s.id + 1) 1 a.session_system.next_session_id ss (omega arith) k

destroy_session-IsNumbered :
    (n id : ℕ) (a : Application) → IsNumbered a → Holds (destroy_session n id a)
unfolding Holds destroy_session destroy_loop
destroy_session-IsNumbered zero id a h = tt
destroy_session-IsNumbered (suc n) id a h =
    let ss = a.session_system.active_sessions in
    subst Holds (sym (destroy_session-ends n id a)) (destroyed-IsNumbered (ends id ss) a ss h h)

serve-IsNumbered :
    (u : UserCode) (r : Request) (a : Application) → IsNumbered a → Holds (serve u r a)
serve-IsNumbered u Request.creates a h = create_session-IsNumbered u a (create_session u a) refl h
serve-IsNumbered u (Request.destroys n id) a h = destroy_session-IsNumbered n id a h

then_serve-Holds :
    (o : Option Application) (f : Application → Option Application)
    → Holds o
    → ((a : Application) → IsNumbered a → Holds (f a))
    → Holds (then_serve o f)
unfolding Holds
then_serve-Holds none f h k = tt
then_serve-Holds (some b) f h k = k b h

serve_all-Holds :
    (u : UserCode) (rs : List Request) (a : Application) → IsNumbered a → Holds (serve_all u rs a)
unfolding serve_all Holds
serve_all-Holds u [] a h = h
serve_all-Holds u (r ∷ rs) a h =
    then_serve-Holds (serve u r a) (serve_all u rs) (serve-IsNumbered u r a h)
      (serve_all-Holds u rs)

-- After any calls of `create_session` and `destroy_session` that return, on a component without
-- sessions whose next id is one: the ids of the sessions ascend in the order in which they were created
-- and are below the next id. So no two sessions have the same id.
pub serve_all-IsNumbered :
    (u : UserCode) (rs : List Request) (a : Application) {b : Application}
    → a.session_system.active_sessions ≡ []
    → a.session_system.next_session_id ≡ 1
    → serve_all u rs a ≡ some b
    → IsNumbered b
unfolding Holds
serve_all-IsNumbered u rs a none_active one e =
    subst Holds e (serve_all-Holds u rs a (rw (none_active, one) (omega arith)))
