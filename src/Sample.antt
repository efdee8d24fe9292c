-- ===== src/Sample.antt =====
-- test/sample_application: the components of the sample.
pub mod Sessions
pub mod Composition
