-- ===== src/Registry/Tests.antt =====
-- Runs of registry.py on concrete inputs.
pub mod Sample
pub mod Document
mod Runs
mod Checks
mod Steps
