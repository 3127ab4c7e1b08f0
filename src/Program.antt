-- ===== src/Program.antt =====
-- dcp.go: creating, starting and closing the client. Program/Creation.antt has newDcp, Program/Defs.antt
-- Start and close, and Program/ConfigFile.antt newDcpConfig. The children Features, Closing
-- and Expanding have the theorems: with what features a client connects, what starting and closing
-- come to, and how a variable of the environment gets into a file of configuration.
mod Creation
mod Defs
pub mod ConfigFile
pub mod Expanding
pub mod Features
pub mod Closing
unfoldable pub use Creation.*
unfoldable pub use Defs.*
