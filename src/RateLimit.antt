-- ===== src/RateLimit.antt =====
-- crates/http-api/src/rate_limit.rs: the inbound rate limiter of the HTTP API. The parsing and the
-- printing of IP addresses are the standard library's, and enter as parameters. A header map is a
-- function that gives a header's first value where that is visible ASCII text.
pub mod Window
pub mod Keys
pub mod ClientIp
pub mod Limiter
pub mod Gate
mod Tests
