-- ===== src/Examples.antt =====
-- Tests of the definitions on concrete inputs, and the theorems at inputs that meet their hypotheses.
mod Samples
mod Policy
mod Args
mod Skills
mod Panel
mod Mission
mod Automation
mod Queue
mod Jobs
mod Runs
mod Answers
mod Contracts
