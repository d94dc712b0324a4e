-- ===== src/Kernel.antt =====
-- crates/decern-kernel: the authority graph and what the decision reads from it.
pub mod Graph
pub mod Parse
pub mod Context
pub mod Inject
pub mod Validate
pub mod Load
mod Examples
