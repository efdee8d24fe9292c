-- ===== src/Tools/Suites/Order.antt =====
-- The order in which the registered tests of tools/testing.cpp run.
use minicomps.Prelude.{
  ℕ, ◌≤◌, ◌<◌, fun_ext, ◌≡◌, refl, sym, ap, ◌∙◌, List, [], ◌∷◌, ◌++◌, All, arith, append-nil,
  append_assoc, if◌then◌else◌, ◌==◌, Cmd, Outcome, ok, abort, undefined, ◌>>◌, and_then,
}
use minicomps.Tools.Suites.{
  Test, TestSuite, TestSystem, initial, add_test, with_suite, register, run_tests, run_suites,
}

-- One registration: the suite and the test.
abbrev pub Registration : Type 0
Registration = ℕ × Test

unfoldable pub register_all : List Registration → TestSystem → TestSystem
register_all [] s = s
register_all (r ∷ rs) s = register_all rs (register r.0 r.1 s)

-- The tests that were registered for a suite, in order.
unfoldable pub tests_of : ℕ → List Registration → List Test
tests_of n [] = []
tests_of n (r ∷ rs) = let rest = tests_of n rs in if r.0 == n then r.1 ∷ rest else rest

-- The tests of the suite `n` in a list of suites.
unfoldable pub listed : ℕ → List TestSuite → List Test
listed n [] = []
listed n (s ∷ suites) = let rest = listed n suites in if s.name == n then s.tests ++ rest else rest

-- The suites are in the order of their names, each once.
abbrev pub IsAbove : ℕ → List TestSuite → Type 0
IsAbove n = All (λ s. n < s.name)

unfoldable pub IsAscending : List TestSuite → Type 0
IsAscending [] = Unit {0}
IsAscending (s ∷ suites) = IsAbove s.name suites × IsAscending suites

with_suite-IsAbove :
    (m n : ℕ) (t : Test) (suites : List TestSuite)
    → m < n
    → IsAbove m suites
    → IsAbove m (with_suite n (add_test t) suites)
unfolding with_suite add_test
with_suite-IsAbove m n t [] h a = (h, tt)
with_suite-IsAbove m n t (s ∷ suites) h a = ground (arith, with_suite-IsAbove m n t suites h a.1)

IsAbove-trans : (m n : ℕ) (suites : List TestSuite) → m < n → IsAbove n suites → IsAbove m suites
IsAbove-trans m n [] h a = tt
IsAbove-trans m n (s ∷ suites) h a = (omega (arith, a.0), IsAbove-trans m n suites h a.1)

with_suite-IsAscending :
    (n : ℕ) (t : Test) (suites : List TestSuite)
    → IsAscending suites
    → IsAscending (with_suite n (add_test t) suites)
unfolding with_suite add_test IsAscending
with_suite-IsAscending n t [] a = (tt, tt)
with_suite-IsAscending n t (s ∷ suites) a = ground (
  arith,
  with_suite-IsAscending n t suites a.1,
  with_suite-IsAbove s.name n t suites,
  IsAbove-trans n s.name suites,
)

-- No suite above `n` has the name `n`, or one below.
listed-IsAbove :
    (m n : ℕ) (suites : List TestSuite) → m ≤ n → IsAbove n suites → listed m suites ≡ []
unfolding listed
listed-IsAbove m n [] h a = refl
listed-IsAbove m n (s ∷ suites) h a = ground (arith, listed-IsAbove m n suites h a.1)

listed-with_suite :
    (m n : ℕ) (t : Test) (suites : List TestSuite)
    → IsAscending suites
    → listed m (with_suite n (add_test t) suites)
      ≡ (if n == m then listed m suites ++ t ∷ [] else listed m suites)
unfolding listed with_suite add_test IsAscending
listed-with_suite m n t [] a = ground arith
listed-with_suite m n t (s ∷ suites) a = ground (
  arith,
  listed-with_suite m n t suites a.1,
  listed-IsAbove m s.name suites,
  append-nil s.tests,
  append-nil (s.tests ++ t ∷ []),
)

abbrev IsOrdered : TestSystem → Type 0
IsOrdered s = IsAscending s.suites

register_all-IsOrdered :
    (rs : List Registration) (s : TestSystem) → IsOrdered s → IsOrdered (register_all rs s)
unfolding register_all register
register_all-IsOrdered [] s a = a
register_all-IsOrdered (r ∷ rs) s a =
    register_all-IsOrdered rs (register r.0 r.1 s) (with_suite-IsAscending r.0 r.1 s.suites a)

listed-register_all :
    (n : ℕ) (rs : List Registration) (s : TestSystem)
    → IsOrdered s
    → listed n (register_all rs s).suites ≡ listed n s.suites ++ tests_of n rs
unfolding register_all register tests_of
listed-register_all n [] s a = sym (append-nil (listed n s.suites))
listed-register_all n (r ∷ rs) s a =
    listed-register_all n rs (register r.0 r.1 s) (with_suite-IsAscending r.0 r.1 s.suites a)
    ∙ ap (λ l. l ++ tests_of n rs) (listed-with_suite n r.0 r.1 s.suites a)
    ∙ ground (arith, append_assoc (listed n s.suites) (r.1 ∷ []) (tests_of n rs))

-- All tests of a list of suites, in the order in which they stand.
unfoldable pub all_tests : List TestSuite → List Test
all_tests [] = []
all_tests (s ∷ suites) = s.tests ++ all_tests suites

and_then_assoc :
    {S : Type 0} (o : Outcome S (Unit {0})) (f g : Cmd S (Unit {0}))
    → and_then (and_then o (λ a. f)) (λ a. g) ≡ and_then o (λ a. f >> g)
and_then_assoc (ok a s) f g = refl
and_then_assoc abort f g = refl
and_then_assoc undefined f g = refl

module _ {S : Type 0} (call : ℕ → Cmd S (Unit {0})) where
  run_tests-append :
      (xs ys : List Test) (s : S)
      → run_tests call (xs ++ ys) s ≡ (run_tests call xs >> run_tests call ys) s
  unfolding run_tests
  run_tests-append [] ys s = refl
  run_tests-append (x ∷ xs) ys s =
      ap (λ k. and_then (call x.fun s) (λ a. k)) (fun_ext (run_tests-append xs ys))
      ∙ sym (and_then_assoc (call x.fun s) (run_tests call xs) (run_tests call ys))

  run_suites-all_tests :
      (suites : List TestSuite) (s : S)
      → run_suites call suites s ≡ run_tests call (all_tests suites) s
  unfolding run_suites all_tests run_tests
  run_suites-all_tests [] s = refl
  run_suites-all_tests (x ∷ suites) s =
      ap (λ k. and_then (run_tests call x.tests s) (λ a. k)) (fun_ext (run_suites-all_tests suites))
      ∙ sym (run_tests-append x.tests (all_tests suites) s)

-- Whatever tests the program has registered, in any order: `run_suites` calls the tests of the suites one
-- after the other, and stops where one stops; the suites stand in the order of their names, each once,
-- and each has exactly the tests that were registered for it, in the order of their registration.
pub run_suites-register_all :
    {S : Type 0} (call : ℕ → Cmd S (Unit {0})) (rs : List Registration) (s : S)
    → let suites = (register_all rs initial).suites in
      (run_suites call suites s ≡ run_tests call (all_tests suites) s)
      × IsAscending suites
      × ((n : ℕ) → listed n suites ≡ tests_of n rs)
unfolding IsAscending listed
run_suites-register_all call rs s = (
  run_suites-all_tests call (register_all rs initial).suites s,
  register_all-IsOrdered rs initial tt,
  λ n. listed-register_all n rs initial tt,
)
