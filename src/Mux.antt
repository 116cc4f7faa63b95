-- ===== src/Mux.antt =====
-- services/mux: the nodes behind a bridge.
pub mod Bridge
pub mod Node
pub mod Route
pub mod Streams
