-- ===== src/Messaging/Casts.antt =====
-- The casts of a handler's `void*`: component_base.h stores handler objects under the id of a message,
-- and sync_query.h, async_query.h, event.h and component_base.h cast the pointers that they look up.
use minicomps.Prelude.{
  ℕ, ◌≡◌, refl, sym, ap, ◌∙◌, inl, inr, Bool-cases, Option-cases, All, Option, none, some, List, [],
  ◌∷◌, Map, find, put, find-put, ◌==◌, ==_iff, subst,
}
use minicomps.Messaging.{
  Signature, FunctionType, MessageHandler, message_handler_impl, message_handler_async_impl,
  message_handler_event_impl, Declaration, query, event, interface, handler, handler_type,
  async_handler_type, event_type, Program, get_message_id,
}

-- The two maps of a component.
pub record Handlers : Type 0 where
  pub sync_handlers : Map MessageHandler
  pub async_handlers : Map MessageHandler

-- The calls that a component makes. Those of a query compile only if `query_info` of the message exists;
-- `subscribe_event` compiles for every message type.
pub data Call (p : Program) : Type 0 where
  publish_sync_query publish_async_query prepend_async_query_filter :
      (m : ℕ) (s : Signature) → p.declaration m ≡ query s → Call p
  subscribe_event : (m : ℕ) → Call p

-- The look-ups whose results are cast: by the references of queries and events, and by a filter, of the
-- handler that it is put on. Again those of a query compile only if `query_info` of the message exists,
-- and those of an event for every message type.
pub data LookUp (p : Program) : Type 0 where
  of_sync_query of_async_query of_filter :
      (m : ℕ) (s : Signature) → p.declaration m ≡ query s → LookUp p
  of_event : (m : ℕ) → LookUp p

module _ (p : Program) where
  -- The four calls on the maps. `none` is `std::abort`.
  unfoldable pub publish_sync : ℕ → Signature → Handlers → Handlers
  publish_sync m s h = record h {
    sync_handlers = put (get_message_id p m) (message_handler_impl s) h.sync_handlers;
  }

  unfoldable pub publish_async : ℕ → Signature → Handlers → Handlers
  publish_async m s h = record h {
    async_handlers = put (get_message_id p m) (message_handler_async_impl s) h.async_handlers;
  }

  unfoldable pub prepend_filter : ℕ → Signature → Handlers → Option Handlers
  prepend_filter m s h = elim (find (get_message_id p m) h.async_handlers) [
    | none ↦ none
    | some previous ↦ some (record h {
      async_handlers = put (get_message_id p m) (message_handler_async_impl s) h.async_handlers;
    })
  ]

  unfoldable pub subscribe : ℕ → Handlers → Handlers
  subscribe m h = record h {
    async_handlers = put (get_message_id p m) (message_handler_event_impl m) h.async_handlers;
  }

  unfoldable pub step : Call p → Handlers → Option Handlers
  step (publish_sync_query m s d) h = some (publish_sync m s h)
  step (publish_async_query m s d) h = some (publish_async m s h)
  step (prepend_async_query_filter m s d) h = prepend_filter m s h
  step (subscribe_event m) h = some (subscribe m h)

  abbrev pub then_run : Option Handlers → (Handlers → Option Handlers) → Option Handlers
  then_run none f = none
  then_run (some h) f = f h

  unfoldable pub run : List (Call p) → Handlers → Option Handlers
  run [] h = some h
  run (c ∷ cs) h = then_run (step c h) (run cs)

  -- The object that the reference of a synchronous query finds, and the type that it casts the pointer to;
  -- then those of an asynchronous query, of an event, and of a filter.
  unfoldable pub sync_found : ℕ → Handlers → Option MessageHandler
  sync_found m h = find (get_message_id p m) h.sync_handlers

  unfoldable pub sync_cast : Signature → FunctionType
  sync_cast s = handler_type s

  unfoldable pub async_found : ℕ → Handlers → Option MessageHandler
  async_found m h = find (get_message_id p m) h.async_handlers

  unfoldable pub async_cast : Signature → FunctionType
  async_cast s = async_handler_type s

  unfoldable pub event_found : ℕ → Handlers → Option MessageHandler
  event_found m h = find (get_message_id p m) h.async_handlers

  unfoldable pub event_cast : (m : ℕ) → FunctionType
  event_cast m = event_type m

  unfoldable pub previous_found : ℕ → Handlers → Option MessageHandler
  previous_found m h = find (get_message_id p m) h.async_handlers

  unfoldable pub previous_cast : Signature → FunctionType
  previous_cast s = async_handler_type s

  abbrev pub found : LookUp p → Handlers → Option MessageHandler
  found (of_sync_query m s d) h = sync_found m h
  found (of_async_query m s d) h = async_found m h
  found (of_event m) h = event_found m h
  found (of_filter m s d) h = previous_found m h

  abbrev pub cast_type : LookUp p → FunctionType
  cast_type (of_sync_query m s d) = sync_cast s
  cast_type (of_async_query m s d) = async_cast s
  cast_type (of_event m) = event_cast m
  cast_type (of_filter m s d) = previous_cast s

  -- The object that a look-up has found has the type.
  abbrev pub Fits : Option MessageHandler → FunctionType → Type 0
  Fits none t = Unit {0}
  Fits (some w) t = handler w ≡ t

  -- The message is a query, and its synchronous handlers are cast to `u`.
  abbrev SyncCast : ℕ → FunctionType → Type 0
  SyncCast m u = (s : Signature) × (p.declaration m ≡ query s) × (u ≡ handler_type s)

  -- The message is a query or an event, and the handlers that are not synchronous are cast to `u`.
  data ProperCast (m : ℕ) (u : FunctionType) : Type 0 where
    by_query :
        (s : Signature) → p.declaration m ≡ query s → u ≡ async_handler_type s → ProperCast m u
    by_event : p.declaration m ≡ event → u ≡ event_type m → ProperCast m u

  -- Every such cast of an entry is to the type of what the pointer points to.
  record AreTyped (h : Handlers) : Type 0 where
    sync :
        (m : ℕ) (u : FunctionType)
        → SyncCast m u
        → Fits (find (get_message_id p m) h.sync_handlers) u
    async :
        (m : ℕ) (u : FunctionType)
        → ProperCast m u
        → Fits (find (get_message_id p m) h.async_handlers) u

  -- The program subscribes to nothing but events.
  abbrev pub IsProper : Call p → Type 0
  IsProper (subscribe_event m) = p.declaration m ≡ event
  IsProper c = Unit {0}

  -- It looks up the handlers of nothing but events as those of an event.
  abbrev pub IsProperLookUp : LookUp p → Type 0
  IsProperLookUp (of_event m) = p.declaration m ≡ event
  IsProperLookUp l = Unit {0}

  -- The static variables of different message types are different objects.
  abbrev pub IsUnique : Type 0
  IsUnique = (m n : ℕ) → p.uniq m ≡ p.uniq n → m ≡ n

  -- An entry is set that has the right type for its own message.
  put-Fits :
      (t : ℕ → FunctionType → Type 0) (k : ℕ) (w : MessageHandler) (l : Map MessageHandler)
      → IsUnique
      → ((u : FunctionType) → t k u → handler w ≡ u)
      → ((m : ℕ) (u : FunctionType) → t m u → Fits (find (get_message_id p m) l) u)
      → (m : ℕ) (u : FunctionType) → t m u
      → Fits (find (get_message_id p m) (put (get_message_id p k) w l)) u
  unfolding get_message_id
  put-Fits t k w l i new old m u h = elim (Bool-cases (p.uniq k == p.uniq m)) [
    | inl e ↦
        rw (find-put (p.uniq k) (p.uniq m) w l, e)
          (new u (subst (λ n. t n u) (sym (i k m ((==_iff (p.uniq k) (p.uniq m)).0 e))) h))
    | inr e ↦ rw (find-put (p.uniq k) (p.uniq m) w l, e) (old m u h)
  ]

  signature_of : Declaration → Option Signature
  signature_of (query s) = some s
  signature_of event = none
  signature_of interface = none

  -- A message is declared once.
  same_signature :
      (m : ℕ) (s t : Signature) → p.declaration m ≡ query s → p.declaration m ≡ query t → s ≡ t
  unfolding signature_of
  same_signature m s t d e = let q : some s ≡ some t = ap signature_of (sym d ∙ e) in cc

  sync_type :
      (k : ℕ) (s : Signature) (u : FunctionType)
      → p.declaration k ≡ query s
      → SyncCast k u
      → handler (message_handler_impl s) ≡ u
  unfolding handler_type
  sync_type k s u d (t, e, c) =
      ap (λ r. handler (message_handler_impl r)) (same_signature k s t d e) ∙ sym c

  async_type :
      (k : ℕ) (s : Signature) (u : FunctionType)
      → p.declaration k ≡ query s
      → ProperCast k u
      → handler (message_handler_async_impl s) ≡ u
  unfolding async_handler_type signature_of
  async_type k s u d (by_query t e c) =
      ap (λ r. handler (message_handler_async_impl r)) (same_signature k s t d e) ∙ sym c
  async_type k s u d (by_event e c) =
      absurd (let q : some s ≡ none = ap signature_of (sym d ∙ e) in cc)

  event_handler_type :
      (k : ℕ) (u : FunctionType)
      → p.declaration k ≡ event
      → ProperCast k u
      → handler (message_handler_event_impl k) ≡ u
  unfolding handler signature_of
  event_handler_type k u d (by_query t e c) =
      absurd (let q : some t ≡ none = ap signature_of (sym e ∙ d) in cc)
  event_handler_type k u d (by_event e c) = sym c

  abbrev Holds : Option Handlers → Type 0
  Holds none = Unit {0}
  Holds (some h) = AreTyped h

  step-AreTyped :
      (c : Call p) (h : Handlers) → IsUnique → IsProper c → AreTyped h → Holds (step c h)
  unfolding step publish_sync publish_async prepend_filter subscribe
  step-AreTyped (publish_sync_query m s d) h i c v = record {
    sync =
        put-Fits SyncCast m (message_handler_impl s) h.sync_handlers i (λ u. sync_type m s u d)
          v.sync;
    async = v.async;
  }
  step-AreTyped (publish_async_query m s d) h i c v = record {
    sync = v.sync;
    async =
        put-Fits ProperCast m (message_handler_async_impl s) h.async_handlers i
          (λ u. async_type m s u d) v.async;
  }
  step-AreTyped (prepend_async_query_filter m s d) h i c v =
      elim (Option-cases (find (get_message_id p m) h.async_handlers)) [
        | inl e ↦ rw (Holds, prepend_filter, e) tt
        | inr (w, e) ↦
            rw (Holds, prepend_filter, e)
              (record {
                sync = v.sync;
                async =
                    put-Fits ProperCast m (message_handler_async_impl s) h.async_handlers i
                      (λ u. async_type m s u d) v.async;
              })
      ]
  step-AreTyped (subscribe_event m) h i c v = record {
    sync = v.sync;
    async =
        put-Fits ProperCast m (message_handler_event_impl m) h.async_handlers i
          (λ u. event_handler_type m u c) v.async;
  }

  then_run-Holds :
      (o : Option Handlers) (f : Handlers → Option Handlers)
      → Holds o
      → ((h : Handlers) → AreTyped h → Holds (f h))
      → Holds (then_run o f)
  then_run-Holds none f v g = tt
  then_run-Holds (some h) f v g = g h v

  run-Holds :
      (cs : List (Call p)) (h : Handlers)
      → IsUnique
      → All IsProper cs
      → AreTyped h
      → Holds (run cs h)
  unfolding run
  run-Holds [] h i c v = v
  run-Holds (k ∷ cs) h i (c, cs') v =
      then_run-Holds (step k h) (run cs) (step-AreTyped k h i c v)
        (λ h' v'. run-Holds cs h' i cs' v')

abbrev pub no_handlers : Handlers
no_handlers = record { sync_handlers = []; async_handlers = [] }

fits :
    (p : Program) (l : LookUp p) (h : Handlers)
    → IsProperLookUp p l
    → AreTyped p h
    → Fits p (found p l h) (cast_type p l)
unfolding sync_found sync_cast async_found async_cast event_found event_cast previous_found
    previous_cast
fits p (of_sync_query m s d) h c v = v.sync m (handler_type s) (s, d, refl)
fits p (of_async_query m s d) h c v = v.async m (async_handler_type s) (by_query s d refl)
fits p (of_event m) h c v = v.async m (event_type m) (by_event c refl)
fits p (of_filter m s d) h c v = v.async m (async_handler_type s) (by_query s d refl)

-- The messages have different ids, and the program subscribes to events only. Then, whatever a component
-- publishes, filters and subscribes to, in any order, a pointer to a handler that a query, a filter, or an
-- event whose message is declared as one, looks up in it is cast to the type of the object that it points to.
pub run-Fits :
    (p : Program) (cs : List (Call p)) (l : LookUp p) {h : Handlers}
    → IsUnique p
    → All (IsProper p) cs
    → IsProperLookUp p l
    → run p cs no_handlers ≡ some h
    → Fits p (found p l h) (cast_type p l)
unfolding find
run-Fits p cs l {h} i c k e = fits p l h k (
    subst (Holds p) e
      (run-Holds p cs no_handlers i c (record { sync = λ m u t. tt; async = λ m u t. tt })))
