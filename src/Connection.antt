-- ===== src/Connection.antt =====
-- connection/: the manager of connections.
pub mod Manager
