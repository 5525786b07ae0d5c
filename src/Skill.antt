-- ===== src/Skill.antt =====
-- src/voxera/skills: how a skill's arguments are normalised, what the runtime enforces before a
-- skill runs, and the runner itself.
pub mod Args
pub mod Result
pub mod Enforce
pub mod Report
pub mod Run
