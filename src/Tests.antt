-- ===== src/Tests.antt =====
-- Runs of the definitions on small inputs, and the theorems at inputs that meet their hypotheses.
mod Core
mod Glpi
mod Auth
mod Runtime
mod Orchestration
mod Adapter
mod Inbound
mod Provider
