-- ===== src/Base.antt =====
-- include/minicomps/component_base.h: what a component publishes, refers to and withdraws.
pub mod Publish
pub mod Refer
pub mod Lifecycle
