-- ===== src/Sdd.antt =====
-- project_management/sdd: batches of milestone members.
pub mod Batch
