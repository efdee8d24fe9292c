-- ===== src/Tools/Allocations.antt =====
-- `alloc_counter` and `alloc_system` of tools/testing.h and testing.cpp, and the operators that report
-- to them.
pub mod Counts
pub mod Reported
use minicomps.Prelude.{
  ℕ, zero, suc, ◌+◌, Bool, true, false, Option, none, some, List, [], ◌∷◌, if◌then◌else◌, Cmd, ok,
  undefined, pure, ◌>>=◌, ◌>>◌, modify, update, Map, find, put, erase, any, leb, ◌==◌,
}

-- The largest `int`.
abbrev pub int_max : ℕ
int_max = 2147483647

-- `active_allocations` maps a pointer to its size. The count is an `int` that never becomes negative.
pub record AllocCounter : Type 0 where
  pub total_allocation_count : ℕ
  pub active_allocations : Map ℕ

-- The set of counters is a list without repetitions; `counter` is the counter at an address. The two flags are static
-- variables of testing.cpp, and `breakpoints` counts the traps into a debugger.
pub record AllocSystem : Type 0 where
  pub alloc_reporting_enabled : Bool
  pub alloc_breakpoint_enabled : Bool
  pub breakpoints : ℕ
  pub active_counters : List ℕ
  pub counter : ℕ → AllocCounter

abbrev pub initial : AllocSystem
initial = record {
  alloc_reporting_enabled = true;
  alloc_breakpoint_enabled = false;
  breakpoints = 0;
  active_counters = [];
  counter = λ c. record { total_allocation_count = 0; active_allocations = [] };
}

-- `unordered_map::emplace` keeps an entry that is there.
unfoldable pub emplace : ℕ → ℕ → Map ℕ → Map ℕ
emplace ptr size m = elim (find ptr m) [ none ↦ put ptr size m | some old ↦ m ]

-- `++total_allocation_count_` on the largest `int` is undefined.
unfoldable pub is_full : AllocCounter → Bool
is_full k = leb int_max k.total_allocation_count

-- The count after the increment of one that is not full.
unfoldable pub count_allocation : ℕ → ℕ → AllocCounter → AllocCounter
count_allocation ptr size k = record {
  total_allocation_count = k.total_allocation_count + 1;
  active_allocations = emplace ptr size k.active_allocations;
}

unfoldable pub count_removal : ℕ → AllocCounter → AllocCounter
count_removal ptr k = record k { active_allocations = erase ptr k.active_allocations }

-- An allocation or a release by the containers of the counters, while `mut_` is held: to report it
-- would lock `mut_` once more.
unfoldable pub inner_call : Cmd AllocSystem (Unit {0})
inner_call s = if s.alloc_reporting_enabled then undefined else ok tt s

unfoldable pub inner_calls : ℕ → Cmd AllocSystem (Unit {0})
inner_calls zero = pure tt
inner_calls (suc n) = inner_call >> inner_calls n

unfoldable pub set_reporting : Bool → AllocSystem → AllocSystem
set_reporting b s = record s { alloc_reporting_enabled = b }

-- `instance`; `inner` calls happen in the first one.
unfoldable pub instance_of : ℕ → Cmd AllocSystem (Unit {0})
instance_of inner = do modify (set_reporting false); inner_calls inner; modify (set_reporting true)

-- `unordered_set`: membership, `insert` and `erase`.
unfoldable pub contains : ℕ → List ℕ → Bool
contains c = any (λ d. d == c)

unfoldable pub insert_counter : ℕ → List ℕ → List ℕ
insert_counter c cs = if contains c cs then cs else c ∷ cs

unfoldable pub erase_counter : ℕ → List ℕ → List ℕ
erase_counter c [] = []
erase_counter c (d ∷ ds) = let rest = erase_counter c ds in if d == c then rest else d ∷ rest

-- A method of `alloc_system` that changes the set or the counters, with `inner` calls on the way.
unfoldable pub under_lock : ℕ → Cmd AllocSystem (Unit {0}) → Cmd AllocSystem (Unit {0})
under_lock inner f = do
  modify (set_reporting false)
  f
  inner_calls inner
  modify (set_reporting true)

-- The loop over the counters, each of which is at its own address.
unfoldable pub for_counters : (AllocCounter → AllocCounter) → AllocSystem → AllocSystem
for_counters f s = record s {
  counter = λ c. if contains c s.active_counters then f (s.counter c) else s.counter c;
}

unfoldable pub add_counter : ℕ → ℕ → Cmd AllocSystem (Unit {0})
add_counter inner c =
    under_lock inner
      (modify (λ s. record s { active_counters = insert_counter c s.active_counters }))

unfoldable pub remove_counter : ℕ → ℕ → Cmd AllocSystem (Unit {0})
remove_counter inner c =
    under_lock inner
      (modify (λ s. record s { active_counters = erase_counter c s.active_counters }))

-- `add_allocation` of every counter.
unfoldable pub count_all : ℕ → ℕ → Cmd AllocSystem (Unit {0})
count_all ptr size s =
    if any (λ c. is_full (s.counter c)) s.active_counters
    then undefined
    else ok tt (for_counters (count_allocation ptr size) s)

unfoldable pub add_allocation : ℕ → ℕ → ℕ → Cmd AllocSystem (Unit {0})
add_allocation inner ptr size = under_lock inner (count_all ptr size)

unfoldable pub remove_allocation : ℕ → ℕ → Cmd AllocSystem (Unit {0})
remove_allocation inner ptr = under_lock inner (modify (for_counters (count_removal ptr)))

-- The constructor and the destructor of the counter at `c`.
unfoldable pub construct : ℕ → ℕ → Cmd AllocSystem (Unit {0})
construct inner c = do
  modify (λ s. record s {
    counter = update s.counter c (record { total_allocation_count = 0; active_allocations = [] });
  })
  instance_of inner
  add_counter inner c

unfoldable pub destroy : ℕ → ℕ → Cmd AllocSystem (Unit {0})
destroy inner c = do instance_of inner; remove_counter inner c

unfoldable pub trap : AllocSystem → AllocSystem
trap s = if s.alloc_breakpoint_enabled then record s { breakpoints = s.breakpoints + 1 } else s

-- `operator new`, for which `malloc` has returned `ptr`, and `operator delete`.
unfoldable pub operator_new : ℕ → ℕ → ℕ → Cmd AllocSystem (Unit {0})
operator_new inner ptr size s =
    if s.alloc_reporting_enabled
    then (modify trap >> instance_of inner >> add_allocation inner ptr size) s
    else ok tt s

unfoldable pub operator_delete : ℕ → ℕ → Cmd AllocSystem (Unit {0})
operator_delete inner ptr s =
    if s.alloc_reporting_enabled
    then (instance_of inner >> remove_allocation inner ptr) s
    else ok tt s

unfoldable pub enable_allocation_breakpoint : Bool → AllocSystem → AllocSystem
enable_allocation_breakpoint enabled s = record s { alloc_breakpoint_enabled = enabled }

-- `active_allocations`
unfoldable pub sizes : Map ℕ → List ℕ
sizes [] = []
sizes ((ptr, size) ∷ m) = size ∷ sizes m
