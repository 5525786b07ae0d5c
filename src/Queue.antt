-- ===== src/Queue.antt =====
-- src/voxera/core/queue_*.py: the queue of submitted jobs. Queue/State is the snapshot of a job's
-- lifecycle, Queue/Approvals the approval of a step.
pub mod Requests
pub mod Disk
pub mod Names
pub mod Lifecycle
pub mod Sidecar
pub mod Steps
pub mod Gate
pub mod Answer
pub mod Execution
pub mod Lock
pub mod Contracts
pub mod State
pub mod Approvals
