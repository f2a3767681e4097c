-- ===== src/Worker.antt =====
-- internal/worker: the messages between the server and its worker processes, and their supervisor.
pub mod Protocol
pub mod Manager
