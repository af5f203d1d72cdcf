-- ===== src/Run.antt =====
-- Pipeline runs (modules/hub/app/features/project_management/pipeline_runs): the rows, the lease
-- that serialises their workers, and the operations that move a run between its states.
pub mod Model
pub mod Tables
pub mod Lease
pub mod Transitions
pub mod Control
pub mod Prepare
pub mod Catalogs
pub mod Advance
pub mod Questions
pub mod Consistency
