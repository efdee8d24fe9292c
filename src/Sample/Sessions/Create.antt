-- ===== src/Sample/Sessions/Create.antt =====
-- What `create_session` of session_system_impl.cpp does when it ends normally.
use minicomps.Prelude.{
  ℕ, ◌+◌, ◌<◌, ◌≡◌, refl, sym, ap, ◌∙◌, Bool, true, false, [], ◌∷◌, ◌++◌, ok, abort, undefined,
  Outcome, Cmd, and_then, ◌>>=◌, ◌>>◌, pure, arith, ltb, if◌then◌else◌, subst,
}
use minicomps.Lifetime
use minicomps.World.{World, UserCode}
use minicomps.Query.Event
use minicomps.Base.Refer.{clone_interface}
use minicomps.Sample.Sessions.{
  Session, SessionSystem, Application, max_int, in_world, on_world, set_sessions, new_session,
  next_id, push_back, announce, create_session,
}

-- What `create_session` does to the sessions when it ends normally.
pub record Created (id : ℕ) (a b : Application) : Type 0 where
  pub created : Session
  pub named : created.id ≡ id
  pub answer : id ≡ a.session_system.next_session_id
  pub bound : id < max_int
  pub next : b.session_system.next_session_id ≡ id + 1
  pub added : b.session_system.active_sessions ≡ a.session_system.active_sessions ++ created ∷ []

abbrev sessions_of : {A : Type 0} → SessionSystem → Outcome Application A → SessionSystem
sessions_of d (ok x a) = a.session_system
sessions_of d abort = d
sessions_of d undefined = d

on_world-kept :
    {A : Type 0} (a b : Application) (o : Outcome World A) (x : A)
    → in_world a o ≡ ok x b
    → b.session_system ≡ a.session_system
on_world-kept a b (ok y w) x e = sym (ap (sessions_of a.session_system) e)
on_world-kept a b abort x e = absurd (cc)
on_world-kept a b undefined x e = absurd (cc)

-- A sequence that ends normally: so did its first part.
and_then-ok :
    {A B : Type 0} (o : Outcome Application A) (f : A → Cmd Application B) {x : B} {b : Application}
    → and_then o f ≡ ok x b
    → (y : A) × (a : Application) × (o ≡ ok y a) × (f y a ≡ ok x b)
and_then-ok (ok y a) f e = (y, a, refl, e)
and_then-ok abort f e = absurd (cc)
and_then-ok undefined f e = absurd (cc)

abbrev value_of : {A : Type 0} → A → Outcome Application A → A
value_of d (ok x a) = x
value_of d abort = d
value_of d undefined = d

abbrev state_of : {A : Type 0} → Application → Outcome Application A → Application
state_of d (ok x a) = a
state_of d abort = d
state_of d undefined = d

if-ok :
    {A : Type 0} (c : Bool) (x y : A) (a b : Application)
    → (if c then ok x a else undefined) ≡ ok y b
    → (c ≡ true) × (y ≡ x) × (b ≡ a)
if-ok true x y a b e = (refl, sym (ap (value_of x) e), sym (ap (state_of a) e))
if-ok false x y a b e = absurd (cc)

next_id-ok :
    (a b : Application) (id : ℕ)
    → next_id a ≡ ok id b
    → (id ≡ a.session_system.next_session_id)
      × (id < max_int)
      × (b.session_system.next_session_id ≡ id + 1)
      × (b.session_system.active_sessions ≡ a.session_system.active_sessions)
unfolding next_id
next_id-ok a b id e =
    let n = a.session_system.next_session_id in
    let (small, value, state) = if-ok (ltb n max_int) n id _ b e in
    (
      value,
      ground (arith, small, value),
      ap (λ (s : Application). s.session_system.next_session_id) state
          ∙ ap (λ m. m + 1) (sym value),
      ap (λ (s : Application). s.session_system.active_sessions) state,
    )

new_session-kept :
    (id : ℕ) (a b : Application) (s : Session)
    → new_session id a ≡ ok s b
    → (s.id ≡ id) × (b.session_system ≡ a.session_system)
unfolding new_session on_world
new_session-kept id a b s e =
    let l = a.next_lifetime in
    let a0 = record a {
      world = record a.world { lifetimes = Lifetime.reset l a.world.lifetimes };
      next_lifetime = l + 1;
    } in
    let (r, a1, e1, e2) =
      and_then-ok (in_world a0 (clone_interface a.session_system.user_system l a0.world))
        (λ q. pure (record { id = id; lifetime = l; user_system = q; authenticated = false })) e in
    (
      sym (ap (λ o. (value_of s o).id) e2),
      sym (ap (sessions_of a1.session_system) e2) ∙ on_world-kept a0 a1 _ r e1,
    )

announce-kept :
    (u : UserCode) (id x : ℕ) (a b : Application)
    → announce u id a ≡ ok x b
    → (x ≡ id) × (b.session_system ≡ a.session_system)
unfolding announce on_world
announce-kept u id x a b e =
    let (r, a1, e1, e2) =
      and_then-ok (in_world a (Event.publish u a.session_system.event_session_created id a.world))
        (λ _. pure id) e in
    (
      sym (ap (value_of x) e2),
      sym (ap (sessions_of a1.session_system) e2) ∙ on_world-kept a a1 _ r e1,
    )

pub create_session-Created :
    (u : UserCode) (a b : Application) (id : ℕ) → create_session u a ≡ ok id b → Created id a b
unfolding create_session push_back set_sessions
create_session-Created u a b id e =
    let (i, a1, e1, f1) =
      and_then-ok (next_id a) (λ i. new_session i >>= λ s. push_back s >> announce u i) e in
    let (s, a2, e2, f2) = and_then-ok (new_session i a1) (λ s. push_back s >> announce u i) f1 in
    let (answer, bound, next, same) = next_id-ok a a1 i e1 in
    let (named, kept) = new_session-kept i a1 a2 s e2 in
    let (value, kept2) = announce-kept u i id _ b f2 in
    record {
      created = s;
      named = named ∙ sym value;
      answer = value ∙ answer;
      bound = subst (λ n. n < max_int) (sym value) bound;
      next =
          ap (λ t. t.next_session_id) kept2
          ∙ ap (λ t. t.next_session_id) kept
          ∙ next
          ∙ ap (λ n. n + 1) (sym value);
      added =
          ap (λ t. t.active_sessions) kept2
          ∙ ap (λ t. t.active_sessions ++ s ∷ []) kept
          ∙ ap (λ l. l ++ s ∷ []) same;
    }
