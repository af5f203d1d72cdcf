-- ===== src/Pipelines.antt =====
-- project_management/pipelines: the observation of a pull request's checks.
pub mod Gate
