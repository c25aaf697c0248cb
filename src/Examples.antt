-- ===== src/Examples.antt =====
-- examples: the programs that show how the client is used.
pub mod Environment
pub mod RemoteSigner
pub mod Setup
pub mod Programs
