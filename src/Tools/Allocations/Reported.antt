-- ===== src/Tools/Allocations/Reported.antt =====
-- One reported event of tools/testing.cpp: what it does to the counters, whatever their containers allocate.
use minicomps.Prelude.{
  List, ◌∷◌, Cmd, modify, any, ℕ, ◌+◌, zero, suc, ◌≡◌, refl, Bool, true, false, Option, none, some,
  [], if◌then◌else◌, arith, ok, update, Map, find, find-put, ◌==◌, inl, inr, Option-cases,
}
use minicomps.Tools.Allocations.{
  AllocCounter, AllocSystem, emplace, count_allocation, count_removal, inner_call, inner_calls,
  set_reporting, instance_of, under_lock, for_counters, add_counter, remove_counter, add_allocation,
  remove_allocation, is_full, contains, insert_counter, erase_counter, count_all, construct,
  destroy, trap, operator_new, operator_delete,
}

-- A block that is already live keeps its size.
abbrev pub some_first : Option ℕ → ℕ → Option ℕ
some_first none size = some size
some_first (some old) size = some old

pub find-emplace :
    (ptr size p : ℕ) (m : Map ℕ)
    → find p (emplace ptr size m) ≡ (if ptr == p then some_first (find p m) size else find p m)
unfolding emplace
find-emplace ptr size p m = elim (Option-cases (find ptr m)) [
  | inl e ↦ rw (emplace, e, find-put ptr p size m) (ground arith)
  | inr (old, e) ↦ rw (emplace, e) (ground arith)
]

inner_call-disabled : (s : AllocSystem) → s.alloc_reporting_enabled ≡ false → inner_call s ≡ ok tt s
unfolding inner_call
inner_call-disabled s e = ground arith

inner_calls-disabled :
    (n : ℕ) (s : AllocSystem) → s.alloc_reporting_enabled ≡ false → inner_calls n s ≡ ok tt s
unfolding inner_calls
inner_calls-disabled zero s e = refl
inner_calls-disabled (suc n) s e = simp (inner_call-disabled s e) (inner_calls-disabled n s e)

instance_of-set_reporting :
    (n : ℕ) (s : AllocSystem) → instance_of n s ≡ ok tt (set_reporting true s)
unfolding instance_of set_reporting
instance_of-set_reporting n s = rw (inner_calls-disabled n (set_reporting false s) refl) refl

under_lock-set_reporting :
    (n : ℕ) (f : Cmd AllocSystem (Unit {0})) (s t : AllocSystem)
    → f (set_reporting false s) ≡ ok tt t
    → t.alloc_reporting_enabled ≡ false
    → under_lock n f s ≡ ok tt (set_reporting true t)
unfolding under_lock
under_lock-set_reporting n f s t e d = rw (e, inner_calls-disabled n t d) refl

-- Membership after the changes of the set.
pub contains-insert :
    (c k : ℕ) (cs : List ℕ)
    → contains k (insert_counter c cs) ≡ (if c == k then true else contains k cs)
unfolding contains insert_counter
contains-insert c k cs = ground arith

pub contains-erase :
    (c k : ℕ) (cs : List ℕ)
    → contains k (erase_counter c cs) ≡ (if c == k then false else contains k cs)
unfolding contains erase_counter
contains-erase c k [] = ground arith
contains-erase c k (d ∷ ds) = let e = contains-erase c k ds in ground (arith, e)

-- The state after an allocation or a release that is reported.
unfoldable pub reported : (AllocCounter → AllocCounter) → AllocSystem → AllocSystem
reported f s = set_reporting true (for_counters f (set_reporting false s))

-- No counter is full.
abbrev pub HasRoom : AllocSystem → Type 0
HasRoom s = (c : ℕ) → contains c s.active_counters ≡ true → is_full (s.counter c) ≡ false

any-false :
    (p : ℕ → Bool) (cs : List ℕ) → ((c : ℕ) → contains c cs ≡ true → p c ≡ false) → any p cs ≡ false
unfolding contains
any-false p [] h = refl
any-false p (c ∷ cs) h =
    let first = h c (ground arith) in
    let rest = any-false p cs (λ d e. h d (ground (arith, e))) in rw (first, rest) refl

count_all-reported :
    (ptr size : ℕ) (s : AllocSystem)
    → HasRoom s
    → count_all ptr size s ≡ ok tt (for_counters (count_allocation ptr size) s)
unfolding count_all
count_all-reported ptr size s h =
    rw (any-false (λ c. is_full (s.counter c)) s.active_counters h) refl

trap-HasRoom :
    (s : AllocSystem) → HasRoom s → HasRoom (set_reporting false (set_reporting true (trap s)))
unfolding trap set_reporting
trap-HasRoom s h =
    elim s.alloc_breakpoint_enabled
      as (λ b. HasRoom (if b then record s { breakpoints = s.breakpoints + 1 } else s)) [
        | true ↦ h
        | false ↦ h
      ]

pub operator_new-reported :
    (inner ptr size : ℕ) (s : AllocSystem)
    → s.alloc_reporting_enabled ≡ true
    → HasRoom s
    → operator_new inner ptr size s ≡ ok tt (reported (count_allocation ptr size) (trap s))
unfolding operator_new reported add_allocation set_reporting for_counters
operator_new-reported inner ptr size s e h =
    simp (operator_new, e, instance_of-set_reporting)
      (under_lock-set_reporting inner (count_all ptr size) (set_reporting true (trap s))
        (for_counters (count_allocation ptr size) (set_reporting false (trap s)))
        (count_all-reported ptr size (set_reporting false (set_reporting true (trap s)))
          (trap-HasRoom s h))
        refl)

pub operator_delete-reported :
    (inner ptr : ℕ) (s : AllocSystem)
    → s.alloc_reporting_enabled ≡ true
    → operator_delete inner ptr s ≡ ok tt (reported (count_removal ptr) s)
unfolding operator_delete reported remove_allocation set_reporting for_counters
operator_delete-reported inner ptr s e =
    simp (operator_delete, e, instance_of-set_reporting)
      (under_lock-set_reporting inner (modify (for_counters (count_removal ptr)))
        (set_reporting true s) (for_counters (count_removal ptr) (set_reporting false s)) refl refl)

-- The state after a counter has come or gone.
unfoldable pub registered : List ℕ → AllocSystem → AllocSystem
registered cs s = record s { alloc_reporting_enabled = true; active_counters = cs }

unfoldable pub cleared : ℕ → AllocSystem → AllocSystem
cleared c s = record s {
  counter = update s.counter c (record { total_allocation_count = 0; active_allocations = [] });
}

pub construct-registered :
    (inner c : ℕ) (s : AllocSystem)
    → construct inner c s ≡ ok tt (registered (insert_counter c s.active_counters) (cleared c s))
unfolding construct add_counter registered cleared set_reporting
construct-registered inner c s = simp instance_of-set_reporting (
    under_lock-set_reporting inner
      (modify (λ s1. record s1 { active_counters = insert_counter c s1.active_counters }))
      (set_reporting true (cleared c s))
      (record (set_reporting false (cleared c s)) {
        active_counters = insert_counter c s.active_counters;
      })
      refl refl)

pub destroy-registered :
    (inner c : ℕ) (s : AllocSystem)
    → destroy inner c s ≡ ok tt (registered (erase_counter c s.active_counters) s)
unfolding destroy remove_counter registered set_reporting
destroy-registered inner c s = simp instance_of-set_reporting (
    under_lock-set_reporting inner
      (modify (λ s1. record s1 { active_counters = erase_counter c s1.active_counters }))
      (set_reporting true s)
      (record (set_reporting false s) { active_counters = erase_counter c s.active_counters }) refl
      refl)
