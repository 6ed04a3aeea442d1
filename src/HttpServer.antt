-- ===== src/HttpServer.antt =====
-- internal/adapter/httpserver: the checks of the parameters of a request, the authentication and the
-- handlers of the public requests.
pub mod Validation
pub mod Auth
pub mod Handlers
