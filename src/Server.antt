-- ===== src/Server.antt =====
-- packages/server: the size estimate of documents and the cursors of a session.
pub mod DocumentSize
pub mod Cursor
pub mod GroupCommit
mod Tests
