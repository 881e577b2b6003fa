-- ===== src/Attestation.antt =====
-- control-plane/src/domains/attestation: what a submitted attestation must satisfy.
pub mod Json
pub mod Schema
pub mod Submit
