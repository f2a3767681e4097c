-- ===== src/App.antt =====
-- internal/app: what the application does when it starts.
pub mod Recovery
