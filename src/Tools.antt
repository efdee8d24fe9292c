-- ===== src/Tools.antt =====
-- tools/testing.h and testing.cpp: the tests that a program registers, and the counters of allocations.
pub mod Suites
pub mod Allocations
pub mod Int
pub mod Measure
