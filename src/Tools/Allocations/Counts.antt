-- ===== src/Tools/Allocations/Counts.antt =====
-- What a counter of tools/testing.cpp has counted.
use minicomps.Prelude.{
  ◌≤◌, sym, ℕ, ◌+◌, ◌≡◌, refl, ap, ◌∙◌, Bool, true, false, Option, none, List, [], ◌∷◌, All,
  if◌then◌else◌, arith, Cmd, ok, pure, ◌>>◌, find, find-erase, ◌==◌, ==_self,
}
use minicomps.Tools.Allocations.{
  AllocSystem, int_max, is_full, contains, insert_counter, erase_counter, count_allocation,
  count_removal, set_reporting, for_counters, construct, destroy, trap, operator_new,
  operator_delete,
}
use minicomps.Tools.Allocations.Reported.{
  some_first, HasRoom, contains-insert, contains-erase, find-emplace, reported,
  operator_new-reported, operator_delete-reported, registered, cleared, construct-registered,
  destroy-registered,
}

-- What the program does while a counter is watching: it allocates, releases, and other counters come
-- and go. `inner` is the number of allocations and releases that the containers of the counters make.
pub data Call : Type 0 where
  news : (inner ptr size : ℕ) → Call
  deletes : (inner ptr : ℕ) → Call
  counts stops : (inner other : ℕ) → Call

unfoldable pub step : Call → Cmd AllocSystem (Unit {0})
step (news inner ptr size) = operator_new inner ptr size
step (deletes inner ptr) = operator_delete inner ptr
step (counts inner other) = construct inner other
step (stops inner other) = destroy inner other

unfoldable pub run : List Call → Cmd AllocSystem (Unit {0})
run [] = pure tt
run (k ∷ ks) = step k >> run ks

-- None of the calls is about the counter itself.
abbrev pub spares : ℕ → Call → Bool
spares c (counts inner other) = if other == c then false else true
spares c (stops inner other) = if other == c then false else true
spares c k = true

-- How many allocations a history has.
unfoldable pub allocations : List Call → ℕ
allocations [] = 0
allocations (news inner ptr size ∷ ks) = allocations ks + 1
allocations (k ∷ ks) = allocations ks

-- The size of the block at `p` after a history, if it is live; it was `s` before.
unfoldable pub live : ℕ → Option ℕ → List Call → Option ℕ
live p s [] = s
live p s (news inner ptr size ∷ ks) = live p (if ptr == p then some_first s size else s) ks
live p s (deletes inner ptr ∷ ks) = live p (if ptr == p then none else s) ks
live p s (k ∷ ks) = live p s ks

-- No counter overflows in the next `left` allocations.
abbrev pub HasRoomFor : ℕ → AllocSystem → Type 0
HasRoomFor left s =
    (c : ℕ)
    → contains c s.active_counters ≡ true
    → (s.counter c).total_allocation_count + left ≤ int_max

-- The parts of the state that matter to the counter `c`.
record Watches (c total left : ℕ) (size : ℕ → Option ℕ) (s : AllocSystem) : Type 0 where
  enabled : s.alloc_reporting_enabled ≡ true
  active : contains c s.active_counters ≡ true
  room : HasRoomFor left s
  total_count : (s.counter c).total_allocation_count ≡ total
  blocks : (p : ℕ) → find p (s.counter c).active_allocations ≡ size p

module _ (c total left : ℕ) (size : ℕ → Option ℕ) (s : AllocSystem)
    (w : Watches c total left size s) where
  trap-Watches : Watches c total left size (trap s)
  unfolding trap
  trap-Watches =
      elim s.alloc_breakpoint_enabled
        as (λ b.
          Watches c total left size
            (if b then record s { breakpoints = s.breakpoints + 1 } else s)) [
              | true ↦ record {
                enabled = w.enabled;
                active = w.active;
                room = w.room;
                total_count = w.total_count;
                blocks = w.blocks;
              }
              | false ↦ w
            ]

  delete-Watches :
      (ptr : ℕ)
      → Watches c total left
          (λ p. if ptr == p then none else size p)
          (reported (count_removal ptr) s)
  unfolding reported for_counters set_reporting count_removal
  delete-Watches ptr = record {
    enabled = refl;
    active = w.active;
    room = λ k e. rw e (w.room k e);
    total_count = rw w.active w.total_count;
    blocks =
        λ p. rw w.active (find-erase ptr p (s.counter c).active_allocations ∙ rw (w.blocks p) refl);
  }

  construct-Watches :
      (other : ℕ)
      → left ≤ int_max
      → spares c (counts 0 other) ≡ true
      → Watches c total left size
          (registered (insert_counter other s.active_counters) (cleared other s))
  unfolding registered cleared
  construct-Watches other l n = record {
    enabled = refl;
    active = contains-insert other c s.active_counters ∙ ground (arith, w.active);
    room = λ k e.
        let shown = sym (contains-insert other k s.active_counters) ∙ e in
        ground (arith, shown, w.room k);
    total_count = ground (arith, w.total_count);
    blocks = λ p. let apart : (other == c) ≡ false = ground arith in rw apart (w.blocks p);
  }

  destroy-Watches :
      (other : ℕ)
      → spares c (stops 0 other) ≡ true
      → Watches c total left size (registered (erase_counter other s.active_counters) s)
  unfolding registered
  destroy-Watches other n = record {
    enabled = refl;
    active = contains-erase other c s.active_counters ∙ ground (arith, w.active);
    room = λ k e.
        let shown = sym (contains-erase other k s.active_counters) ∙ e in
        ground (arith, shown, w.room k);
    total_count = w.total_count;
    blocks = w.blocks;
  }

module _ (c total left : ℕ) (size : ℕ → Option ℕ) (s : AllocSystem)
    (w : Watches c total (left + 1) size s) where
  new-HasRoom : HasRoom s
  unfolding is_full
  new-HasRoom k e = let r = w.room k e in ground (arith, r)

  new-Watches :
      (ptr bytes : ℕ)
      → Watches c
          (total + 1)
          left
          (λ p. if ptr == p then some_first (size p) bytes else size p)
          (reported (count_allocation ptr bytes) s)
  unfolding reported for_counters set_reporting count_allocation
  new-Watches ptr bytes = record {
    enabled = refl;
    active = w.active;
    room = λ k e. rw e (let r = w.room k e in omega (arith, r));
    total_count = rw w.active (ap (λ n. n + 1) w.total_count);
    blocks = λ p.
        rw w.active
          (find-emplace ptr bytes p (s.counter c).active_allocations ∙ rw (w.blocks p) refl);
  }

construct-itself :
    (c left : ℕ) (s : AllocSystem)
    → left ≤ int_max
    → HasRoomFor left s
    → Watches c 0 left (λ p. none) (registered (insert_counter c s.active_counters) (cleared c s))
unfolding registered cleared find
construct-itself c left s l r = record {
  enabled = refl;
  active = contains-insert c c s.active_counters ∙ rw (==_self c) refl;
  room = λ k e.
      let shown = sym (contains-insert c k s.active_counters) ∙ e in ground (arith, shown, r k);
  total_count = rw (==_self c) refl;
  blocks = λ p. rw (==_self c) refl;
}

-- A history goes on from a state in which the counter watches.
run-Watches :
    (c total : ℕ) (size : ℕ → Option ℕ) (ks : List Call) (s : AllocSystem)
    → All (λ k. spares c k ≡ true) ks
    → allocations ks ≤ int_max
    → Watches c total (allocations ks) size s
    → (s' : AllocSystem) × (run ks s ≡ ok tt s')
      × Watches c (total + allocations ks) 0 (λ p. live p (size p) ks) s'
unfolding run step allocations live
run-Watches c total size [] s h l w = (
  s,
  refl,
  record {
    enabled = w.enabled;
    active = w.active;
    room = w.room;
    total_count = omega (arith, w.total_count);
    blocks = w.blocks;
  },
)
run-Watches c total size (news inner ptr bytes ∷ ks) s (h, hs) l w =
    let w0 = trap-Watches c total (allocations ks + 1) size s w in
    let (s', e, w') =
      run-Watches c (total + 1) (λ p. if ptr == p then some_first (size p) bytes else size p) ks
        (reported (count_allocation ptr bytes) (trap s)) hs (omega (arith, l))
        (new-Watches c total (allocations ks) size (trap s) w0 ptr bytes) in
    (
      s',
      simp
          (operator_new-reported inner ptr bytes s w.enabled
            (new-HasRoom c total (allocations ks) size s w))
          e,
      record {
        enabled = w'.enabled;
        active = w'.active;
        room = w'.room;
        total_count = omega (arith, w'.total_count);
        blocks = w'.blocks;
      },
    )
run-Watches c total size (deletes inner ptr ∷ ks) s (h, hs) l w =
    let (s', e, w') =
      run-Watches c total (λ p. if ptr == p then none else size p) ks
        (reported (count_removal ptr) s) hs l
        (delete-Watches c total (allocations ks) size s w ptr) in
    (s', simp (operator_delete-reported inner ptr s w.enabled) e, w')
run-Watches c total size (counts inner other ∷ ks) s (h, hs) l w =
    let (s', e, w') =
      run-Watches c total size ks
        (registered (insert_counter other s.active_counters) (cleared other s)) hs l
        (construct-Watches c total (allocations ks) size s w other l h) in
    (s', simp (construct-registered inner other s) e, w')
run-Watches c total size (stops inner other ∷ ks) s (h, hs) l w =
    let (s', e, w') =
      run-Watches c total size ks (registered (erase_counter other s.active_counters) s) hs l
        (destroy-Watches c total (allocations ks) size s w other h) in
    (s', simp (destroy-registered inner other s) e, w')

-- A counter is constructed, and the program goes on in any way that constructs and destroys only other
-- counters and makes so few allocations that the count of no counter, this one or one that is active
-- already, passes the largest `int`: nothing locks the mutex of the counters twice, the counter has
-- counted exactly the allocations since, and its map holds exactly the blocks that were allocated since
-- and not released, with their sizes.
pub construct-run :
    (inner c : ℕ) (ks : List Call) (s : AllocSystem)
    → All (λ k. spares c k ≡ true) ks
    → allocations ks ≤ int_max
    → HasRoomFor (allocations ks) s
    → (s' : AllocSystem) × ((construct inner c >> run ks) s ≡ ok tt s')
      × ((s'.counter c).total_allocation_count ≡ allocations ks)
      × ((p : ℕ) → find p (s'.counter c).active_allocations ≡ live p none ks)
construct-run inner c ks s h l r =
    let (s', e, w) =
      run-Watches c 0 (λ p. none) ks (registered (insert_counter c s.active_counters) (cleared c s))
        h l (construct-itself c (allocations ks) s l r) in
    (s', simp (construct-registered inner c s) e, omega (arith, w.total_count), w.blocks)
