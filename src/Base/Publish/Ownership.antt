-- ===== src/Base/Publish/Ownership.antt =====
-- Who owns which handler object of component_base.h: the handler maps own the objects that they point
-- at, and the lambda of a filter owns the object that it was put on.
use minicomps.Prelude.{
  ℕ, ◌+◌, ◌<◌, ◌≤◌, ◌≡◌, ◌≢◌, refl, sym, ap, ◌∙◌, subst, Option, none, some, arith, update, ◌⊎◌,
  inl, inr, find, ==_self,
}
use minicomps.Callback.{Handler, code, filtered, wrapped}
use minicomps.World.{World}
use minicomps.Base.Publish.{drop_contents, drop_handler, new_handler}

-- An entry of a handler map of a component, for a message.
pub data Slot : Type 0 where
  sync_slot async_slot : (component msg : ℕ) → Slot

abbrev pub entry : World → Slot → Option ℕ
entry w (Slot.sync_slot c m) = find m (w.component c).sync_handlers
entry w (Slot.async_slot c m) = find m (w.component c).async_handlers

Slot-cases : (s t : Slot) → (s ≡ t) ⊎ (s ≢ t)
Slot-cases s t = ground arith

-- An object that is alive at its address, and belongs to the entry `s`.
pub record IsMine (mem : ℕ → Option Handler) (owner : ℕ → Slot) (next : ℕ) (s : Slot) (p : ℕ)
    (h : Handler) : Type 0 where
  pub live : mem p ≡ some h
  pub owned : owner p ≡ s
  pub below : p < next

-- The objects that an object of the entry `s` owns in turn.
unfoldable pub Contents :
    (mem : ℕ → Option Handler) (owner : ℕ → Slot) (next : ℕ) (s : Slot) (h : Handler) → Type 0
Contents mem owner next s (code k) = Unit {0}
Contents mem owner next s (filtered f at previous) =
    IsMine mem owner next s at previous × Contents mem owner next s previous
Contents mem owner next s (wrapped f previous) = Unit {0}

-- An entry is missing, or points at an object of its own.
unfoldable pub Kept :
    (mem : ℕ → Option Handler) (owner : ℕ → Slot) (next : ℕ) (s : Slot) → Option ℕ → Type 0
Kept mem owner next s none = Unit {0}
Kept mem owner next s (some p) =
    (h : Handler) × IsMine mem owner next s p h × Contents mem owner next s h

-- Every object belongs to one entry at most, and every entry points at a live object.
pub record IsOwned (w : World) : Type 0 where
  pub owner : ℕ → Slot
  pub kept : (s : Slot) → Kept w.handler owner w.next_handler s (entry w s)

-- Two memories that agree on the objects of the entry `s`.
module _ (mem mem' : ℕ → Option Handler) (owner owner' : ℕ → Slot) (next next' : ℕ) (s : Slot)
    (agree : (a : ℕ) → owner a ≡ s → a < next → (mem' a ≡ mem a) × (owner' a ≡ s))
    (grows : next ≤ next') where
  pub IsMine-carry :
      (p : ℕ) (h : Handler) → IsMine mem owner next s p h → IsMine mem' owner' next' s p h
  IsMine-carry p h m =
      let (same, mine) = agree p m.owned m.below in
      record { live = same ∙ m.live; owned = mine; below = omega (arith, m.below, grows) }

  pub Contents-carry : (h : Handler) → Contents mem owner next s h → Contents mem' owner' next' s h
  unfolding Contents
  Contents-carry (code k) c = tt
  Contents-carry (filtered f at previous) (m, more) =
      (IsMine-carry at previous m, Contents-carry previous more)
  Contents-carry (wrapped f previous) c = tt

  pub Kept-carry : (o : Option ℕ) → Kept mem owner next s o → Kept mem' owner' next' s o
  unfolding Kept
  Kept-carry none c = tt
  Kept-carry (some p) (h, m, more) = (h, IsMine-carry p h m, Contents-carry h more)

-- An address that no object of the entry `s` has.
module _ (mem : ℕ → Option Handler) (owner : ℕ → Slot) (next : ℕ) (s : Slot) (a : ℕ)
    (foreign : (b : ℕ) → owner b ≡ s → b < next → b ≢ a) where
  drop_contents-foreign :
      (h : Handler) (m : ℕ → Option Handler)
      → Contents mem owner next s h
      → drop_contents h m a ≡ m a
  unfolding drop_contents Contents
  drop_contents-foreign (code k) m c = refl
  drop_contents-foreign (filtered f at previous) m (mine, more) =
      let away = foreign at mine.owned mine.below in
      let rest = drop_contents-foreign previous m more in ground arith
  drop_contents-foreign (wrapped f previous) m c = refl

drop_handler-foreign :
    (owner : ℕ → Slot) (next : ℕ) (s : Slot) (a : ℕ) (o : Option ℕ) (w : World)
    → Kept w.handler owner next s o
    → ((b : ℕ) → owner b ≡ s → b < next → b ≢ a)
    → (drop_handler o w).handler a ≡ w.handler a
unfolding drop_handler Kept
drop_handler-foreign owner next s a none w c foreign = refl
drop_handler-foreign owner next s a (some p) w (h, m, more) foreign =
    let away = foreign p m.owned m.below in
    let rest = drop_contents-foreign w.handler owner next s a foreign h w.handler more in
    rw (drop_handler, m.live) (ground arith)

-- A new object for the entry `s`, whose previous object, if any, is dropped.
module _ (s : Slot) (h : Handler) (old : Option ℕ) (w : World) (o : IsOwned w)
    (at_old : Kept w.handler o.owner w.next_handler s old) where
  abbrev pub stored : World
  stored = drop_handler old (new_handler h w)

  made-other : (a : ℕ) → a < w.next_handler → (new_handler h w).handler a ≡ w.handler a
  unfolding new_handler
  made-other a l = ground arith

  made-new : (new_handler h w).handler w.next_handler ≡ some h
  unfolding new_handler
  made-new = rw (==_self w.next_handler) refl

  -- The previous object is as it was once the new one has been made.
  made-Kept : Kept (new_handler h w).handler o.owner w.next_handler s old
  made-Kept =
      Kept-carry w.handler (new_handler h w).handler o.owner o.owner w.next_handler w.next_handler s
        (λ a e l. (made-other a l, e)) (omega arith) old at_old

  stored-new : stored.handler w.next_handler ≡ some h
  stored-new =
      drop_handler-foreign o.owner w.next_handler s w.next_handler old (new_handler h w) made-Kept
        (λ b e l n. omega (arith, l, n))
      ∙ made-new

  stored-other :
      (t : Slot) (a : ℕ)
      → t ≢ s
      → o.owner a ≡ t
      → a < w.next_handler
      → stored.handler a ≡ w.handler a
  stored-other t a n e l =
      drop_handler-foreign o.owner w.next_handler s a old (new_handler h w) made-Kept
        (λ b f k q. n (sym e ∙ ap o.owner (sym q) ∙ f))
      ∙ made-other a l

  abbrev pub new_owner : ℕ → Slot
  new_owner = update o.owner w.next_handler s

  new_owner-old : (a : ℕ) → a < w.next_handler → new_owner a ≡ o.owner a
  new_owner-old a l = ground arith

  -- Any world with that memory, in which the entry points at the new object, and the others are as they
  -- were.
  pub stored-IsOwned :
      (w' : World)
      → w'.handler ≡ stored.handler
      → w'.next_handler ≡ w.next_handler + 1
      → entry w' s ≡ some w.next_handler
      → ((t : Slot) → t ≢ s → entry w' t ≡ entry w t)
      → Contents stored.handler new_owner (w.next_handler + 1) s h
      → IsOwned w'
  unfolding Kept
  stored-IsOwned w' same next new others contents = record {
    owner = new_owner;
    kept = λ t.
        subst (λ m. Kept m new_owner w'.next_handler t (entry w' t)) (sym same)
          (subst (λ n. Kept stored.handler new_owner n t (entry w' t)) (sym next) (kept_at t));
  }
    where
      kept_at : (t : Slot) → Kept stored.handler new_owner (w.next_handler + 1) t (entry w' t)
      kept_at t = elim (Slot-cases t s) [
        | inl e ↦
            subst (λ z. Kept stored.handler new_owner (w.next_handler + 1) z (entry w' z)) (sym e)
              (subst (Kept stored.handler new_owner (w.next_handler + 1) s) (sym new) (
                h,
                record {
                  live = stored-new;
                  owned = rw (==_self w.next_handler) refl;
                  below = omega arith;
                },
                contents,
              ))
        | inr n ↦ subst (Kept stored.handler new_owner (w.next_handler + 1) t) (sym (others t n)) (
            Kept-carry w.handler stored.handler o.owner new_owner w.next_handler
              (w.next_handler + 1) t (λ a e l. (stored-other t a n e l, new_owner-old a l ∙ e))
              (omega arith) (entry w t) (o.kept t))
      ]
