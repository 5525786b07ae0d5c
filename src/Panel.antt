-- ===== src/Panel.antt =====
-- src/voxera/panel: the operator's Basic auth with its lockouts, and the CSRF guard of mutations.
pub mod AuthStore
pub mod Guard
