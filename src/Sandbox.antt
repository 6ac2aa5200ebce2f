-- ===== src/Sandbox.antt =====
-- The sandboxes that look at files without running them (aegorx/sandbox/).
pub mod Archive
