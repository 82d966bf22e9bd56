-- ===== src/Opt.antt =====
-- The option parser of opt/.
pub mod Options
pub mod Parser
pub mod Help
mod Tests
