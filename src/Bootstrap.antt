-- ===== src/Bootstrap.antt =====
-- control-plane/src/domains/bootstrap: the registry of the roots of trust.
pub mod Registry
