-- ===== src/Tests.antt =====
-- The theorems at concrete inputs, and runs of the models.
mod Catalog
mod Run
mod Gate
mod Advance
mod Questions
mod Batch
mod Flow
mod Plans
