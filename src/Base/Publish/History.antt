-- ===== src/Base/Publish/History.antt =====
-- Any history of publishing and filtering by any components, through component_base.h.
use minicomps.Prelude.{
  ℕ, ◌+◌, ◌<◌, ◌≡◌, refl, sym, ap, ◌∙◌, subst, Option, none, some, List, [], ◌∷◌, arith, find, Cmd,
  Outcome, ok, abort, undefined, pure, modify, ◌>>◌, ◌⊎◌, Bool, true, false, is_some, if◌then◌else◌,
  Option-cases, inl, inr,
}
use minicomps.Component.{lookup_sync_handler, lookup_async_handler}
use minicomps.Broker.{invalidate}
use minicomps.Callback.{Handler, filtered}
use minicomps.World.{World}
use minicomps.Base.Publish.{
  set_async_handler, new_handler, drop_handler, prepend_async_query_filter, filter_handler,
}
use minicomps.Base.Publish.Offers.{Offer, offer}
use minicomps.Base.Publish.Known.{Knows, learn, offer-Knows, set_async_handler-Knows}
use minicomps.Base.Publish.Ownership.{
  Slot, entry, IsOwned, Kept, Contents, Contents-carry, IsMine-carry, IsMine, stored, new_owner,
}
use minicomps.Base.Publish.Safe.{IsSame-IsOwned, set_async_handler-IsOwned, offer-IsOwned}

-- A call by the component that publishes or filters.
pub data Change : Type 0 where
  offers : (component : ℕ) → Offer → Change
  filters : (component msg filter : ℕ) → Change

unfoldable pub change : Change → Cmd World (Unit {0})
change (Change.offers c o) = modify (offer c o)
change (Change.filters c msg f) = prepend_async_query_filter c msg f

unfoldable pub run_changes : List Change → Cmd World (Unit {0})
run_changes [] = pure tt
run_changes (x ∷ xs) = change x >> run_changes xs

-- Whether every filter is put on a query that its component has published by then.
abbrev pub filters_published : (ℕ → ℕ → Bool) → List Change → Bool
filters_published known [] = true
filters_published known (Change.offers c o ∷ xs) = filters_published (learn known c o) xs
filters_published known (Change.filters c msg f ∷ xs) =
    let rest = filters_published known xs in if known c msg then rest else false

-- The run ends normally, with what holds of its state, or aborts, as the flag says.
abbrev pub EndsAs : (World → Type 0) → Bool → Outcome World (Unit {0}) → Type 0
EndsAs P true (ok a w) = P w
EndsAs P true abort = ⊥
EndsAs P true undefined = ⊥
EndsAs P false (ok a w) = ⊥
EndsAs P false abort = Unit {0}
EndsAs P false undefined = ⊥

-- The object of the filter takes over the object that the entry has pointed at.
filtered-IsOwned :
    (c msg f p : ℕ) (h : Handler) (w : World) (o : IsOwned w)
    → IsMine w.handler o.owner w.next_handler (Slot.async_slot c msg) p h
    → Contents w.handler o.owner w.next_handler (Slot.async_slot c msg) h
    → IsOwned (set_async_handler c msg (filtered f p h) none w)
unfolding Contents Kept drop_handler new_handler
filtered-IsOwned c msg f p h w o mine more =
    let s = Slot.async_slot c msg in
    let top = filtered f p h in
    set_async_handler-IsOwned c msg top none w o tt (
      IsMine-carry w.handler (stored s top none w o tt).handler o.owner
          (new_owner s top none w o tt) w.next_handler (w.next_handler + 1) s agree (omega arith) p
          h mine,
      Contents-carry w.handler (stored s top none w o tt).handler o.owner
          (new_owner s top none w o tt) w.next_handler (w.next_handler + 1) s agree (omega arith) h
          more,
    )
  where
    agree :
        (a : ℕ)
        → o.owner a ≡ Slot.async_slot c msg
        → a < w.next_handler
        → ((stored (Slot.async_slot c msg) (filtered f p h) none w o tt).handler a ≡ w.handler a)
          × (new_owner (Slot.async_slot c msg) (filtered f p h) none w o tt a
              ≡ Slot.async_slot c msg)
    agree a e l = (ground arith, ground arith)

invalidated-IsOwned :
    (msg : ℕ) (w : World) → IsOwned w → IsOwned (record w { broker = invalidate w.broker msg })
invalidated-IsOwned msg w =
    IsSame-IsOwned w (record w { broker = invalidate w.broker msg })
      (record { entries = λ s. same s; handler = refl; next = refl })
  where
    same : (s : Slot) → entry (record w { broker = invalidate w.broker msg }) s ≡ entry w s
    same (Slot.sync_slot d m) = refl
    same (Slot.async_slot d m) = refl

-- The state after a filter.
abbrev filtered_world : (c msg f p : ℕ) → Handler → World → World
filtered_world c msg f p h w =
    let v = set_async_handler c msg (filtered f p h) none w in
    record v { broker = invalidate v.broker msg }

-- What the component knows stays, as the filter takes the place of a handler.
filtered_world-Knows :
    (known : ℕ → ℕ → Bool) (c msg f p : ℕ) (h : Handler) (w : World)
    → Knows known w
    → known c msg ≡ true
    → Knows known (filtered_world c msg f p h w)
filtered_world-Knows known c msg f p h w k e d m =
    let k' = set_async_handler-Knows known c msg (filtered f p h) none w k d m in ground (arith, k')

filters-Gives :
    (known : ℕ → ℕ → Bool) (c msg f : ℕ) (w : World)
    → IsOwned w
    → Knows known w
    → ((known c msg ≡ false) × (prepend_async_query_filter c msg f w ≡ abort))
      ⊎ ((known c msg ≡ true)
          × (v : World) × (prepend_async_query_filter c msg f w ≡ ok tt v)
          × IsOwned v
          × Knows known v)
unfolding prepend_async_query_filter filter_handler Kept
filters-Gives known c msg f w o k = elim (Option-cases (find msg (w.component c).async_handlers)) [
  | inl e ↦ inl (sym (k c msg) ∙ ap is_some e, rw (prepend_async_query_filter, e) refl)
  | inr (p, e) ↦
      let (h, mine, more) =
        subst (Kept w.handler o.owner w.next_handler (Slot.async_slot c msg)) e
          (o.kept (Slot.async_slot c msg)) in
      let there = sym (k c msg) ∙ ap is_some e in
      inr (
        there,
        filtered_world c msg f p h w,
        rw (prepend_async_query_filter, e, filter_handler, mine.live) refl,
        invalidated-IsOwned msg (set_async_handler c msg (filtered f p h) none w)
            (filtered-IsOwned c msg f p h w o mine more),
        filtered_world-Knows known c msg f p h w k there,
      )
]

run_changes-IsOwned :
    (known : ℕ → ℕ → Bool) (xs : List Change) (w : World)
    → IsOwned w
    → Knows known w
    → EndsAs IsOwned (filters_published known xs) (run_changes xs w)
unfolding run_changes change
run_changes-IsOwned known [] w o k = o
run_changes-IsOwned known (Change.offers c p ∷ xs) w o k =
    run_changes-IsOwned (learn known c p) xs (offer c p w) (offer-IsOwned c p w o)
      (offer-Knows known c p w k)
run_changes-IsOwned known (Change.filters c msg f ∷ xs) w o k =
    elim (filters-Gives known c msg f w o k) [
      | inl (e, stops) ↦ rw (e, stops) tt
      | inr (e, v, goes, o', k') ↦ rw (e, goes) (run_changes-IsOwned known xs v o' k')
    ]

-- What the look-ups of components lead to.
pub record Resolves (w : World) : Type 0 where
  pub sync_handler :
      (c msg p : ℕ)
      → lookup_sync_handler (w.component c) msg ≡ some p
      → (h : Handler) × (w.handler p ≡ some h)
  pub async_handler :
      (c msg p : ℕ)
      → lookup_async_handler (w.component c) msg ≡ some p
      → (h : Handler) × (w.handler p ≡ some h)
  pub apart : (s t : Slot) (p : ℕ) → entry w s ≡ some p → entry w t ≡ some p → s ≡ t

Kept-live :
    (mem : ℕ → Option Handler) (owner : ℕ → Slot) (next : ℕ) (s : Slot) (o : Option ℕ) (p : ℕ)
    → Kept mem owner next s o
    → o ≡ some p
    → (h : Handler) × (mem p ≡ some h) × (owner p ≡ s)
unfolding Kept
Kept-live mem owner next s o p k e =
    let (h, mine, more) = subst (Kept mem owner next s) e k in (h, mine.live, mine.owned)

IsOwned-Resolves : (w : World) → IsOwned w → Resolves w
unfolding lookup_sync_handler lookup_async_handler
IsOwned-Resolves w o = record {
  sync_handler = λ c msg p e. found (Slot.sync_slot c msg) p e;
  async_handler = λ c msg p e. found (Slot.async_slot c msg) p e;
  apart = λ s t p es et.
      (let (h, live, mine) = owned s p es in let (k, alive, own) = owned t p et in sym mine ∙ own);
}
  where
    owned :
        (s : Slot) (p : ℕ)
        → entry w s ≡ some p
        → (h : Handler) × (w.handler p ≡ some h) × (o.owner p ≡ s)
    owned s p e = Kept-live w.handler o.owner w.next_handler s (entry w s) p (o.kept s) e

    found : (s : Slot) (p : ℕ) → entry w s ≡ some p → (h : Handler) × (w.handler p ≡ some h)
    found s p e = let (h, live, mine) = owned s p e in (h, live)

-- A world in which no component has a handler.
abbrev pub HasNoHandlers : World → Type 0
HasNoHandlers w = (s : Slot) → entry w s ≡ none

HasNoHandlers-IsOwned : (w : World) → HasNoHandlers w → IsOwned w
unfolding Kept
HasNoHandlers-IsOwned w n = record {
  owner = λ a. Slot.sync_slot 0 0;
  kept = λ s. subst (Kept w.handler (λ a. Slot.sync_slot 0 0) w.next_handler s) (sym (n s)) tt;
}

EndsAs-map :
    (P Q : World → Type 0) (b : Bool) (o : Outcome World (Unit {0}))
    → EndsAs P b o
    → ((w : World) → P w → Q w)
    → EndsAs Q b o
EndsAs-map P Q true (ok a w) p k = k w p
EndsAs-map P Q false abort p k = tt
EndsAs-map P Q true abort p k = elim p [ ]
EndsAs-map P Q true undefined p k = elim p [ ]
EndsAs-map P Q false (ok a w) p k = elim p [ ]
EndsAs-map P Q false undefined p k = elim p [ ]

abbrev pub nothing : ℕ → ℕ → Bool
nothing c msg = false

-- Components that have no handlers yet publish queries, interfaces and subscriptions, publish them
-- again, and put filters on asynchronous queries, in any order. The run aborts if a filter is put on a
-- query that its component has not published by then. Otherwise it ends normally, no object being used
-- that is gone; then every look-up of a handler in a component gives the address of a live object, and
-- no two entries of the handler maps of the components share one.
pub run_changes-Resolves :
    (xs : List Change) (w : World)
    → HasNoHandlers w
    → EndsAs Resolves (filters_published nothing xs) (run_changes xs w)
run_changes-Resolves xs w n =
    EndsAs-map IsOwned Resolves (filters_published nothing xs) (run_changes xs w)
      (run_changes-IsOwned nothing xs w (HasNoHandlers-IsOwned w n)
        (λ c msg. ap is_some (n (Slot.async_slot c msg))))
      IsOwned-Resolves
