-- ===== src/Policies.antt =====
-- The policies of an application: guardrails on the data of artifacts, and permissions.
pub mod Guardrails
pub mod Permissions
pub mod Vetted
