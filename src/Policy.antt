-- ===== src/Policy.antt =====
-- control-plane/src/domains/policy: the policy that a tenant's edges enforce.
pub mod Validation
pub mod Store
