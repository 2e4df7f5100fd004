-- ===== src/Access.antt =====
-- Admission to the HTTP API: src/api/rate_limiter.py.
pub mod RateLimiter
pub mod LoginGuard
