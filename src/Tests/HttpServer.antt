-- ===== src/Tests/HttpServer.antt =====
-- Runs of the limiter of internal/httpserver, and its theorems at inputs.
use seo_crawler_mcp.Prelude.{true, [], ◌∷◌, codes, bytes_eq, ◌≡◌, refl, inl, arith}
use seo_crawler_mcp.HttpServer.RateLimit.{
  RateLimiter, new_rate_limiter, put_hit, is_over, allow, gc,
}
use seo_crawler_mcp.HttpServer.RateLimit.Bursts.{passing, passing_burst}

limiting : Unit {0}
unfolding bytes_eq new_rate_limiter put_hit is_over allow gc passing
limiting = tt

abbrev limiter : RateLimiter
limiter = record { limit = 2; window = 60; hits = (new_rate_limiter 2 60).hits }

abbrev after_one : RateLimiter
after_one = (allow limiter (codes "10.0.0.1") 5).1

limiter_runs :
    (passing limiter (codes "10.0.0.1") (5 ∷ 6 ∷ 7 ∷ 64 ∷ 65 ∷ []) ≡ 3)
    × ((allow after_one (codes "10.0.0.2") 6).0 ≡ true)
unfolding limiting
limiter_runs = (refl, refl)

passing_burst_example : passing limiter (codes "10.0.0.1") (5 ∷ 6 ∷ 7 ∷ 64 ∷ []) ≡ 2
unfolding limiting
passing_burst_example =
    passing_burst limiter (codes "10.0.0.1") 5 (6 ∷ 7 ∷ 64 ∷ []) (omega arith) (inl refl)
      (omega arith, (omega arith, (omega arith, tt)))
