-- ===== src/Queue/Execution.antt =====
-- `QueueExecutionMixin.process_job_file` of src/voxera/core/queue_execution.py, once the job is
-- accepted: the loop that plans, runs and plans again. Queue/Execution/Endings is how a job leaves
-- it, Queue/Execution/Attempt one turn, Queue/Execution/Intake what comes before it.
pub mod Host
pub mod Endings
pub mod Runs
pub mod Attempt
pub mod Loop
pub mod Intake
