-- ===== src/Usecase.antt =====
-- internal/usecase: the application services behind the HTTP handlers.
pub mod Enqueue
pub mod Fetch
pub mod Ingest
