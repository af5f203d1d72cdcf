-- ===== src/Flow.antt =====
-- Flows (modules/hub/app/features/execution/flows): runs of declared steps, whose tasks outside
-- workers carry out and whose approvals people give.
pub mod Model
pub mod Contract
pub mod Declared
pub mod Attempts
pub mod Runtime
pub mod Results
pub mod Commands
pub mod Progress
pub mod Rows
pub mod Soundness
pub mod Worker
pub mod Service
pub mod World
pub mod Host
