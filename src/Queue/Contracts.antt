-- ===== src/Queue/Contracts.antt =====
-- What a job leaves for its readers (src/voxera/core/queue_contracts.py): the structured results of
-- its steps, and the artifacts that were expected and those that are there.
pub mod Steps
pub mod Artifacts
