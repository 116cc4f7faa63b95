-- ===== src/Go.antt =====
-- The parts of Go's language and standard library that the modelled packages use.
pub mod Result
pub mod Io
pub mod Conn
pub mod Slice
pub mod Text
pub mod Net
pub mod HostPort
