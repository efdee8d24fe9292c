-- ===== src/Ref.antt =====
-- The references that a component keeps to the handlers of others: include/minicomps/mono_ref.h,
-- poly_ref.h and interface_ref.h.
pub mod Mono
pub mod Poly
