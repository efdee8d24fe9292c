-- ===== src/Component.antt =====
-- include/minicomps/component.h and the state of include/minicomps/component_base.h: what a component
-- keeps, and the look-ups that other components make in it.
use Prim.Native.String.{String}
use minicomps.Prelude.{ℕ, Bool, true, false, Option, none, some, List, [], ◌∷◌, Map, find}

-- `message_type`
pub data MessageType : Type 0 where
  request response locked_request locked_response event : MessageType

-- `dependency_info::direction` and `dependency_info::type`
pub data Direction : Type 0 where
  exports imports : Direction

pub data DependencyType : Type 0 where
  async_mono sync_mono async_poly interface group : DependencyType

-- `none` among the targets is a null pointer.
pub record DependencyInfo : Type 0 where
  pub direction : Direction
  pub type : DependencyType
  pub msg_info : ℕ
  pub resolved_targets : List (Option ℕ)

-- A component, an executor, a message and a handler object are named by ids, as the source names
-- them by addresses. `lock_depth` counts the nested locks of `lock`; `default_lifetime` is a
-- lifetime object; a handler map holds addresses of handler objects.
pub record Component : Type 0 where
  pub name : String
  pub default_executor : ℕ
  pub default_lifetime : ℕ
  pub listener : Option ℕ
  pub allow_direct_call_async : Bool
  pub allow_locking_calls_sync : Bool
  pub lock_depth : ℕ
  pub sync_handlers : Map ℕ
  pub async_handlers : Map ℕ
  pub interfaces : Map ℕ
  pub async_executor_overrides : Map (Option ℕ)
  pub mono_refs : List ℕ
  pub poly_refs : List ℕ
  pub interface_refs : List ℕ
  pub post_publish_checks : List ℕ
  pub published_dependencies : List DependencyInfo
  pub published : Bool

-- The constructor of `component_base` for a component of no group.
unfoldable pub new : String → ℕ → ℕ → Component
new name executor lifetime = record {
  name = name;
  default_executor = executor;
  default_lifetime = lifetime;
  listener = none;
  allow_direct_call_async = true;
  allow_locking_calls_sync = true;
  lock_depth = 0;
  sync_handlers = [];
  async_handlers = [];
  interfaces = [];
  async_executor_overrides = [];
  mono_refs = [];
  poly_refs = [];
  interface_refs = [];
  post_publish_checks = [];
  published_dependencies = [];
  published = false;
}

-- The constructor of `component_base` for a component of the group `g`.
unfoldable new_in_group : String → ℕ → ℕ → ℕ → Component
new_in_group name executor lifetime g = record (new name executor lifetime) {
  published_dependencies =
      record { direction = exports; type = group; msg_info = g; resolved_targets = [] } ∷ [];
}

unfoldable pub lookup_sync_handler : Component → ℕ → Option ℕ
lookup_sync_handler c msg = find msg c.sync_handlers

unfoldable pub lookup_async_handler : Component → ℕ → Option ℕ
lookup_async_handler c msg = find msg c.async_handlers

unfoldable pub lookup_interface : Component → ℕ → Option ℕ
lookup_interface c msg = find msg c.interfaces

-- A missing entry and a null entry both give a null pointer.
unfoldable pub lookup_executor_override : Component → ℕ → Option ℕ
lookup_executor_override c msg = elim (find msg c.async_executor_overrides) [
  | none ↦ none
  | some executor ↦ executor
]
