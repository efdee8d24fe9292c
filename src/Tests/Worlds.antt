-- ===== src/Tests/Worlds.antt =====
-- A small program: component 1 owns the lifetime object 1 and works on executor 1, component 2 those
-- with the number 2, and so on.
use minicomps.Prelude.{true, none, [], ok}
use minicomps.Component
use minicomps.Component.{Component}
use minicomps.Broker
use minicomps.Executor.{idle}
use minicomps.Ref.Mono
use minicomps.Ref.Mono.{async}
use minicomps.Ref.Poly
use minicomps.Lifetime
use minicomps.Query.Interface.SyncQuery
use minicomps.Query.Interface.Reference
use minicomps.World.{World, UserCode}

abbrev pub start : World
start = record {
  broker = Broker.empty;
  alive = λ c. true;
  component = λ c. Component.new "sample" c c;
  executor = λ x. idle;
  executor_alive = λ x. true;
  lifetimes = Lifetime.empty;
  handler = λ p. none;
  next_handler = 0;
  mono_ref = λ i. Mono.new async 0 0;
  next_mono_ref = 0;
  poly_ref = λ i. Poly.new 0 0;
  next_poly_ref = 0;
  interface_ref = λ i. Reference.new 0 0 none true;
  next_interface_ref = 0;
  if_query = λ i. SyncQuery.new 0;
  next_if_query = 0;
  interface = λ i. [];
  current_component = none;
  current_lifetime = none;
  log = [];
}

-- Code of the program that does nothing; every result is a success.
abbrev pub quiet : UserCode
quiet = record {
  async_handler = λ k a r w. ok tt w;
  sync_handler = λ k a w. ok a w;
  event_handler = λ k e w. ok tt w;
  filter = λ f a r w. ok (true, a, r) w;
  if_async_filter = λ f a r h w. ok tt w;
  if_sync_filter = λ f a h w. ok a w;
  callback = λ k r w. ok tt w;
  promise = λ k r w. ok tt w;
  succeed = λ k v o w. ok tt w;
  fail = λ o f w. ok tt w;
  work = λ k w. ok tt w;
  moved_from = λ e. 0;
  is_success = λ r. true;
  get_value = λ r. r;
  get_failure = λ r. r;
}
