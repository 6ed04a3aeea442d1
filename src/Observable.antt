-- ===== src/Observable.antt =====
-- internal/observability: the client that wraps a connection with a time-out that adapts
-- (adaptive_timeout.go), the counters and the breaker (observable_client.go).
pub mod Timeout
pub mod Client
pub mod Accounting
