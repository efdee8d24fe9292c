-- ===== src/Broker/Handles.antt =====
-- When the weak pointers that `lookup` of broker.cpp returns expire.
use minicomps.Prelude.{
  ℕ, ◌+◌, ◌<◌, ◌≤◌, ◌≡◌, refl, inl, inr, ◌⊎◌, subst, Bool, true, false, ◌||◌, Option, none, some,
  List, [], ◌∷◌, arith, ◌==◌, if◌then◌else◌, any, find, keys, find-put, Bool-cases, Option-cases,
}
use minicomps.Broker.{
  Broker, Receivers, Handle, store, associate, disassociate, invalidate, and_then, disassociate_all,
  disassociate_everything, lookup, lock, empty,
}
use minicomps.Broker.Table.{
  receivers, has_entry, associate-store, disassociate-store, invalidate-store, lookup-store,
  has_entry-keys,
}

-- A call of the broker, with the weak pointers that can be locked at that time.
pub data Call : Type 0 where
  associates : ℕ → ℕ → Call
  disassociates : (ℕ → Bool) → ℕ → ℕ → Call
  invalidates : ℕ → Call
  disassociates_everything : (ℕ → Bool) → ℕ → Call
  looks_up : ℕ → Call

unfoldable pub step : Call → Broker → Option Broker
step (associates m c) b = some (associate b m c)
step (disassociates alive m c) b = disassociate alive b m c
step (invalidates m) b = some (invalidate b m)
step (disassociates_everything alive c) b = disassociate_everything alive b c
step (looks_up m) b = some (lookup b m).1

unfoldable pub run : List Call → Broker → Option Broker
run [] b = some b
run (c ∷ cs) b = and_then (step c b) (run cs)

-- The calls that replace the list of receivers of a message.
unfoldable pub touches : ℕ → Call → Bool
touches n (associates m c) = m == n
touches n (disassociates alive m c) = m == n
touches n (invalidates m) = m == n
touches n (disassociates_everything alive c) = true
touches n (looks_up m) = false

-- The handle was given out before.
abbrev pub Issued : Handle → Broker → Type 0
Issued h b = h.version < b.next_version

-- Versions are given out in order.
pub record IsFresh (b : Broker) : Type 0 where
  pub below :
      (m : ℕ) (r : Receivers) → find m b.active_lookups ≡ some r → r.version < b.next_version

pub lock-store :
    (b : Broker) (m : ℕ) (items : List ℕ) (h : Handle)
    → Issued h b
    → lock (store b m items) h ≡ (if m == h.msg then none else lock b h)
unfolding lock store
lock-store b m items h i =
    ground (
      arith,
      find-put m h.msg (record { version = b.next_version; items = items }) b.active_lookups,
    )

lock_missing :
    (b : Broker) (m : ℕ) (h : Handle) → has_entry b m ≡ false → m ≡ h.msg → lock b h ≡ none
unfolding lock has_entry
lock_missing b m h e q = ground arith

store-next :
    (b : Broker) (m : ℕ) (items : List ℕ) → (store b m items).next_version ≡ b.next_version + 1
unfolding store
store-next b m items = refl

pub IsFresh-store : (b : Broker) (m : ℕ) (items : List ℕ) → IsFresh b → IsFresh (store b m items)
unfolding store
IsFresh-store b m items f = record {
  below = λ n r e. ground (
    arith,
    f.below n r,
    find-put m n (record { version = b.next_version; items = items }) b.active_lookups,
  );
}

-- What a call does to a handle that was given out before it.
pub record After (h : Handle) (gone : Bool) (b b' : Broker) : Type 0 where
  pub now : Issued h b → lock b' h ≡ (if gone then none else lock b h)
  pub grows : b.next_version ≤ b'.next_version
  pub fresh : IsFresh b → IsFresh b'

After-store :
    (b : Broker) (m : ℕ) (items : List ℕ) (h : Handle) → After h (m == h.msg) b (store b m items)
After-store b m items h = record {
  now = lock-store b m items h;
  grows = omega (arith, store-next b m items);
  fresh = IsFresh-store b m items;
}

module _ {h : Handle} where
  After-refl : {b : Broker} {gone : Bool} → (gone ≡ false) ⊎ (lock b h ≡ none) → After h gone b b
  After-refl e = record { now = λ i. ground arith; grows = omega arith; fresh = λ f. f }

  -- The two sides are equal when the message has no entry: then the handle has expired before.
  After-regone :
      {b b' : Broker} {g g' : Bool}
      → After h g b b'
      → (g ≡ g') ⊎ (lock b h ≡ none)
      → After h g' b b'
  After-regone a e = record { now = λ i. ground (arith, a.now i); grows = a.grows; fresh = a.fresh }

  After-trans :
      {b b1 b2 : Broker} {g g' : Bool} → After h g b b1 → After h g' b1 b2 → After h (g || g') b b2
  After-trans a a' = record {
    now = λ i. ground (arith, a.now i, a'.now (omega (arith, a.grows)));
    grows = omega (arith, a.grows, a'.grows);
    fresh = λ f. a'.fresh (a.fresh f);
  }

-- The same of a call that may reach `std::abort`.
abbrev pub Leaves : Handle → Bool → Broker → Option Broker → Type 0
Leaves h gone b none = Unit
Leaves h gone b (some b') = After h gone b b'

module _ (h : Handle) where
  Leaves-trans :
      (g g' : Bool) (b b1 : Broker) (o : Option Broker)
      → After h g b b1
      → Leaves h g' b1 o
      → Leaves h (g || g') b o
  Leaves-trans g g' b b1 none a l = tt
  Leaves-trans g g' b b1 (some b2) a l = After-trans a l

  Leaves-and_then :
      (g g' : Bool) (b : Broker) (o : Option Broker) (f : Broker → Option Broker)
      → Leaves h g b o
      → ((b1 : Broker) → After h g b b1 → Leaves h g' b1 (f b1))
      → Leaves h (g || g') b (and_then o f)
  Leaves-and_then g g' b none f l k = tt
  Leaves-and_then g g' b (some b1) f l k = Leaves-trans g g' b b1 (f b1) l (k b1 l)

  Leaves-regone :
      (g g' : Bool) (b : Broker) (o : Option Broker)
      → Leaves h g b o
      → (g ≡ g') ⊎ (lock b h ≡ none)
      → Leaves h g' b o
  Leaves-regone g g' b none l e = tt
  Leaves-regone g g' b (some b') l e = After-regone l e

  disassociate-Leaves :
      (alive : ℕ → Bool) (b : Broker) (m c : ℕ) → Leaves h (m == h.msg) b (disassociate alive b m c)
  disassociate-Leaves alive b m c =
      rw (disassociate-store alive b m c) (elim (Bool-cases (has_entry b m)) [
        | inl found ↦ rw found (After-store b m _ h)
        | inr missing ↦ rw missing tt
      ])

  disassociate_all-Leaves :
      (alive : ℕ → Bool) (c : ℕ) (ks : List ℕ) (b : Broker)
      → Leaves h (any (λ k. k == h.msg) ks) b (disassociate_all alive c ks b)
  unfolding disassociate_all
  disassociate_all-Leaves alive c [] b = After-refl (inl refl)
  disassociate_all-Leaves alive c (k ∷ ks) b =
      Leaves-and_then (k == h.msg) (any (λ j. j == h.msg) ks) b (disassociate alive b k c)
        (disassociate_all alive c ks) (disassociate-Leaves alive b k c)
        (λ b1 a. disassociate_all-Leaves alive c ks b1)

  missed : (m : ℕ) (b : Broker) → has_entry b m ≡ false → ((m == h.msg) ≡ false) ⊎ (lock b h ≡ none)
  missed m b e = ground (arith, lock_missing b m h)

  -- The message of a handle that can be locked is a key of the map.
  listed : (b : Broker) → (any (λ k. k == h.msg) (keys b.active_lookups) ≡ true) ⊎ (lock b h ≡ none)
  listed b = ground (arith, has_entry-keys b h.msg, lock_missing b h.msg h)

  step-Leaves : (c : Call) (b : Broker) → Leaves h (touches h.msg c) b (step c b)
  unfolding step touches disassociate_everything
  step-Leaves (associates m c) b = rw (associate-store b m c) (After-store b m _ h)
  step-Leaves (disassociates alive m c) b = disassociate-Leaves alive b m c
  step-Leaves (invalidates m) b = rw (invalidate-store b m) (elim (Bool-cases (has_entry b m)) [
    | inl found ↦ rw found (After-store b m _ h)
    | inr missing ↦ rw missing (After-refl (missed m b missing))
  ])
  step-Leaves (disassociates_everything alive c) b =
      Leaves-regone (any (λ k. k == h.msg) (keys b.active_lookups)) true b
        (disassociate_all alive c (keys b.active_lookups) b)
        (disassociate_all-Leaves alive c (keys b.active_lookups) b) (listed b)
  step-Leaves (looks_up m) b = rw (lookup-store b m) (elim (Bool-cases (has_entry b m)) [
    | inl found ↦ rw found (After-refl (inl refl))
    | inr missing ↦ rw missing (After-regone (After-store b m [] h) (missed m b missing))
  ])

  run-Leaves : (cs : List Call) (b : Broker) → Leaves h (any (touches h.msg) cs) b (run cs b)
  unfolding run
  run-Leaves [] b = After-refl (inl refl)
  run-Leaves (c ∷ cs) b =
      Leaves-and_then (touches h.msg c) (any (touches h.msg) cs) b (step c b) (run cs)
        (step-Leaves c b) (λ b1 a. run-Leaves cs b1)

  run-After :
      (cs : List Call) (b : Broker) {b' : Broker}
      → run cs b ≡ some b'
      → After h (any (touches h.msg) cs) b b'
  run-After cs b e = subst (Leaves h (any (touches h.msg) cs) b) e (run-Leaves cs b)

lookup-Issued : (b : Broker) (m : ℕ) → IsFresh b → Issued (lookup b m).0 (lookup b m).1
unfolding lookup store
lookup-Issued b m f = elim (Option-cases (find m b.active_lookups)) [
  | inl e ↦ rw (e, lookup) (omega arith)
  | inr (r, e) ↦ rw (e, lookup) (f.below m r e)
]

pub lookup-lock : (b : Broker) (m : ℕ) → lock (lookup b m).1 (lookup b m).0 ≡ some (receivers b m)
unfolding lookup store lock receivers
lookup-lock b m =
    ground (arith, find-put m m (record { version = b.next_version; items = [] }) b.active_lookups)

lookup-msg : (b : Broker) (m : ℕ) → (lookup b m).0.msg ≡ m
unfolding lookup
lookup-msg b m = ground arith

-- In a broker whose versions are fresh, the handle that `lookup` returns gives the receivers of the
-- message at that time for as long as no later call replaces them, and has expired from then on.
pub lock-run :
    (b : Broker) (m : ℕ) (cs : List Call) {b' : Broker}
    → IsFresh b
    → run cs (lookup b m).1 ≡ some b'
    → lock b' (lookup b m).0 ≡ (if any (touches m) cs then none else some (receivers b m))
lock-run b m cs f e =
    let a = run-After (lookup b m).0 cs (lookup b m).1 e in
    ground (arith, a.now (lookup-Issued b m f), lookup-lock b m, lookup-msg b m)

-- Every call keeps the versions fresh, so the condition of `lock-run` holds of any history that
-- begins with the empty broker.
pub run-IsFresh : (cs : List Call) {b' : Broker} → run cs empty ≡ some b' → IsFresh b'
unfolding find
run-IsFresh cs e =
    (run-After (record { msg = 0; version = 0 }) cs empty e).fresh
      (record { below = λ m r found. cc })
