-- ===== src/Catalog.antt =====
-- The AI catalog gateway (modules/hub/app/features/ai_catalogs): what a provider plan is, how each
-- kind of plan consumes and recovers quota, the tables that the gateway reads, and the gateway.
pub mod Model
pub mod Codex
pub mod Daily
pub mod Store
pub mod Gateway
