-- ===== src/Plans.antt =====
-- Work plans (modules/hub/app/features/project_management/work_plans): what operators register for
-- agents to do, as items that depend on each other.
pub mod Graph
pub mod Model
pub mod Control
pub mod Register
