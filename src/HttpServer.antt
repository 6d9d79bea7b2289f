-- ===== src/HttpServer.antt =====
-- The HTTP server (internal/httpserver): its limiter of requests and its queue of crawls.
pub mod RateLimit
pub mod Stream
pub mod Queue
