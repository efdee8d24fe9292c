-- ===== src/Ref/Mono.antt =====
-- include/minicomps/mono_ref.h: a cached reference to the one handler of a message.
pub mod Target
pub mod Cache
use minicomps.Prelude.{
  ℕ, Bool, true, false, not, ◌&&◌, Option, none, some, List, [], ◌∷◌, ◌==◌, if◌then◌else◌, is_some,
}
use minicomps.Broker
use minicomps.Broker.{Broker, Handle}
use minicomps.Component.{
  Component, DependencyInfo, imports, async_mono, lookup_sync_handler, lookup_async_handler,
  lookup_executor_override,
}

-- `sync_mono_ref` or `async_mono_ref`
pub data Kind : Type 0 where
  sync async : Kind

-- `none` is a null pointer, or a weak pointer that owns no block.
pub record MonoRef : Type 0 where
  pub kind : Kind
  pub msg : ℕ
  pub component : ℕ
  pub handler : Option ℕ
  pub receivers : Option Handle
  pub same_executor : Bool
  pub receiver : Option ℕ
  pub receiver_executor : Option ℕ

unfoldable pub new : Kind → ℕ → ℕ → MonoRef
new kind msg component = record {
  kind = kind;
  msg = msg;
  component = component;
  handler = none;
  receivers = none;
  same_executor = false;
  receiver = none;
  receiver_executor = none;
}

-- What a look-up reads besides the broker: the components, and which of them can be locked.
pub record Components : Type 0 where
  pub alive : ℕ → Bool
  pub component : ℕ → Component

unfoldable pub lookup_handler : Kind → Component → ℕ → Option ℕ
lookup_handler sync c msg = lookup_sync_handler c msg
lookup_handler async c msg = lookup_async_handler c msg

unfoldable pub expired : Broker → Option Handle → Bool
expired b none = true
expired b (some h) = Broker.expired b h

-- The executor on which the receiver handles the message.
unfoldable pub executor_for : Component → ℕ → ℕ
executor_for c msg = elim (lookup_executor_override c msg) [
  | none ↦ c.default_executor
  | some executor ↦ executor
]

-- From `receiver_ = (*receivers)[0].lock()` on.
unfoldable pub resolve_receiver : Components → MonoRef → ℕ → Option ℕ × MonoRef
resolve_receiver env r c =
    if env.alive c
    then (let r1 = record r {
      receiver = some c;
      handler = lookup_handler r.kind (env.component c) r.msg;
    } in
        elim r1.handler [
          | none ↦ (none, r1)
          | some p ↦ (
            some p,
            record r1 {
              receiver_executor = some (executor_for (env.component c) r.msg);
              same_executor =
                  (env.component r.component).default_executor
                  == executor_for (env.component c) r.msg;
            },
          )
        ])
    else (none, record r { receiver = none })

unfoldable pub resolve : Components → MonoRef → Option (List ℕ) → Option ℕ × MonoRef
resolve env r none = (none, r)
resolve env r (some []) = (none, r)
resolve env r (some (c ∷ [])) = resolve_receiver env r c
resolve env r (some (c ∷ d ∷ more)) = (none, r)

-- The answer, the reference and the broker after it.
unfoldable pub lookup : Components → Broker → MonoRef → Option ℕ × MonoRef × Broker
lookup env b r =
    if is_some r.handler && not (expired b r.receivers)
    then (r.handler, r, b)
    else (let (h, b1) = Broker.lookup b r.msg in
        let (p, r1) = resolve env (record r { receivers = some h }) (Broker.lock b1 h) in
        (p, r1, b1))

unfoldable pub reset : MonoRef → MonoRef
reset r = record r { handler = none; receivers = none; receiver = none; receiver_executor = none }

unfoldable pub force_resolve : Components → Broker → MonoRef → MonoRef × Broker
force_resolve env b r = let (p, r1, b1) = lookup env b r in (r1, b1)

unfoldable pub create_dependency_info : MonoRef → DependencyInfo
create_dependency_info r = record {
  direction = imports;
  type = async_mono;
  msg_info = r.msg;
  resolved_targets = r.receiver ∷ [];
}
