-- ===== src/HttpServer/RateLimit.antt =====
-- The fixed-window limiter (rateLimiter in internal/httpserver/server.go). The lock makes each call a
-- step; the clock is an argument, in ticks, and the map a function.
pub mod Bursts
use seo_crawler_mcp.Prelude.{
  ℕ, suc, ◌-◌, ◌*◌, Bool, true, false, Option, none, some, Bytes, bytes_eq, if◌then◌else◌, leb,
}

pub record WindowState : Type 0 where
  pub count : ℕ
  pub start : ℕ

pub record RateLimiter : Type 0 where
  pub limit : ℕ
  pub window : ℕ
  pub hits : Bytes → Option WindowState

unfoldable pub new_rate_limiter : ℕ → ℕ → RateLimiter
new_rate_limiter limit window = record { limit = limit; window = window; hits = λ key. none }

unfoldable pub put_hit : RateLimiter → Bytes → WindowState → RateLimiter
put_hit rl key st = record rl {
  hits = λ other. if bytes_eq other key then some st else rl.hits other;
}

-- Whether the window that began at `start` is over.
unfoldable pub is_over : ℕ → ℕ → ℕ → Bool
is_over window start now = leb window (now - start)

unfoldable pub allow : RateLimiter → Bytes → ℕ → Bool × RateLimiter
allow rl key now =
    let fresh : Bool × RateLimiter = (true, put_hit rl key (record { count = 1; start = now })) in
    elim (rl.hits key) [
      | none ↦ fresh
      | some st ↦
          if is_over rl.window st.start now
          then fresh
          else if leb rl.limit st.count
          then (false, rl)
          else (true, put_hit rl key (record st { count = suc st.count }))
    ]

-- One sweep of the collector.
unfoldable pub gc : RateLimiter → ℕ → RateLimiter
gc rl now = record rl {
  hits = λ key. elim (rl.hits key) [
    | none ↦ none
    | some st ↦ if is_over (rl.window * 2) st.start now then none else some st
  ];
}
