-- ===== src/Base/Refer.antt =====
-- The functions of component_base.h that make references to what other components publish.
use minicomps.Prelude.{
  ℕ, ◌+◌, Option, none, [], ◌∷◌, ◌++◌, update, Bool, true, false, Cmd, ok, abort, if◌then◌else◌,
}
use minicomps.Lifetime.{create_weak_ptr}
use minicomps.Ref.Mono
use minicomps.Ref.Mono.{Kind, sync, async}
use minicomps.Ref.Poly
use minicomps.World.{World, set_component}
use minicomps.Query.Async.{AsyncQuery}
use minicomps.Query.Sync.{SyncQuery}
use minicomps.Query.Event.{EventSource}
use minicomps.Query.Interface.Reference

-- `make_shared<..._mono_ref<MessageType>>(broker_, *this)`, kept in `mono_refs_`.
unfoldable pub add_mono_ref : Kind → (c msg : ℕ) → World → World
add_mono_ref kind c msg w =
    set_component c
      (record (w.component c) { mono_refs = (w.component c).mono_refs ++ w.next_mono_ref ∷ [] })
      (record w {
        mono_ref = update w.mono_ref w.next_mono_ref (Mono.new kind msg c);
        next_mono_ref = w.next_mono_ref + 1;
      })

unfoldable pub lookup_sync_query : (c msg : ℕ) → World → SyncQuery × World
lookup_sync_query c msg w = (
  record {
    handler = w.next_mono_ref;
    owning_component = c;
    msg_info = msg;
    fallback_handler = none;
  },
  add_mono_ref sync c msg w,
)

unfoldable pub lookup_async_query : (c msg : ℕ) → World → AsyncQuery × World
lookup_async_query c msg w = (
  record {
    handler = w.next_mono_ref;
    owning_component = c;
    msg_info = msg;
    lifetime = (w.component c).default_lifetime;
  },
  add_mono_ref async c msg w,
)

unfoldable pub lookup_event : (c msg : ℕ) → World → EventSource × World
lookup_event c msg w = (
  record { handler = w.next_poly_ref; owning_component = c; msg_info = msg },
  set_component c
      (record (w.component c) { poly_refs = (w.component c).poly_refs ++ w.next_poly_ref ∷ [] })
      (record w {
        poly_ref = update w.poly_ref w.next_poly_ref (Poly.new msg c);
        next_poly_ref = w.next_poly_ref + 1;
      }),
)

-- A reference for a weak pointer to a lifetime, kept in `interface_refs_`; the answer is its id.
unfoldable pub add_interface_ref : (c msg : ℕ) → Option ℕ → Bool → World → ℕ × World
add_interface_ref c msg life cloneable w = (
  w.next_interface_ref,
  set_component c
      (record (w.component c) {
        interface_refs = (w.component c).interface_refs ++ w.next_interface_ref ∷ [];
      })
      (record w {
        interface_ref =
            update w.interface_ref w.next_interface_ref (Reference.new msg c life cloneable);
        next_interface_ref = w.next_interface_ref + 1;
      }),
)

unfoldable pub lookup_interface : (c msg : ℕ) → World → ℕ × World
lookup_interface c msg w =
    add_interface_ref c msg (create_weak_ptr w.lifetimes (w.component c).default_lifetime) true w

-- `interface(other, life)`: a reference of the same component to the same interface, for the lifetime
-- object `life`. The function `clone` of a reference that was itself made so is empty.
unfoldable pub clone_interface : (reference life : ℕ) → Cmd World ℕ
clone_interface i life w =
    if (w.interface_ref i).cloneable
    then (let (j, w1) =
          add_interface_ref (w.interface_ref i).owning_component (w.interface_ref i).msg
            (create_weak_ptr w.lifetimes life) false w in
        ok j w1)
    else abort
