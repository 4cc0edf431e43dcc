-- ===== src/Shell.antt =====
-- node/internal/shell: the emulated command interpreter.
pub mod Parser
mod Urls
pub mod Session
pub mod Evaluate
pub mod Loop
pub mod Login
pub mod Commands
