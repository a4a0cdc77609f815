-- ===== src/Server.antt =====
-- The server, backend/internal: the parts that decide what a request may touch.
pub mod Paths
pub mod FilesApi
pub mod Reached
pub mod Sessions
pub mod Terminals
pub mod Input
