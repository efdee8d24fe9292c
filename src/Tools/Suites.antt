-- ===== src/Tools/Suites.antt =====
-- `test_suite`, `test_system` and `test_registration` of tools/testing.h and testing.cpp. A suite, a test
-- and a test function are named by numbers, a suite in the order of `operator<` on the names.
pub mod Order
use minicomps.Prelude.{ℕ, List, [], ◌∷◌, ◌++◌, Cmd, pure, ◌>>◌, if◌then◌else◌, ◌==◌, ltb}

-- A test with its function.
pub record Test : Type 0 where
  pub name : ℕ
  pub fun : ℕ

pub record TestSuite : Type 0 where
  pub name : ℕ
  pub tests : List Test

-- `suites_`, a `std::map` in the order of its keys.
pub record TestSystem : Type 0 where
  pub suites : List TestSuite

abbrev pub initial : TestSystem
initial = record { suites = [] }

unfoldable pub add_test : Test → TestSuite → TestSuite
add_test t s = record s { tests = s.tests ++ t ∷ [] }

-- `get_suite`, and what is done with the reference that it returns: `emplace` makes a suite with the
-- name where there is none.
unfoldable pub with_suite : ℕ → (TestSuite → TestSuite) → List TestSuite → List TestSuite
with_suite name f [] = f (record { name = name; tests = [] }) ∷ []
with_suite name f (s ∷ suites) =
    let rest = with_suite name f suites in
    if s.name == name
    then f s ∷ suites
    else if ltb name s.name
    then f (record { name = name; tests = [] }) ∷ s ∷ suites
    else s ∷ rest

-- The constructor of `test_registration`.
unfoldable pub register : (suite : ℕ) → Test → TestSystem → TestSystem
register suite t s = record { suites = with_suite suite (add_test t) s.suites }

-- `run_tests` and `run_suites`, where `call` calls a test function.
module _ {S : Type 0} (call : ℕ → Cmd S (Unit {0})) where
  unfoldable pub run_tests : List Test → Cmd S (Unit {0})
  run_tests [] = pure tt
  run_tests (t ∷ ts) = call t.fun >> run_tests ts

  unfoldable pub run_suites : List TestSuite → Cmd S (Unit {0})
  run_suites [] = pure tt
  run_suites (s ∷ suites) = run_tests s.tests >> run_suites suites

  -- `main` of testing.cpp, with the tests that were registered before it.
  unfoldable pub main : TestSystem → Cmd S (Unit {0})
  main s = run_suites s.suites
