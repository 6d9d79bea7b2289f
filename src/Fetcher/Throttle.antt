-- ===== src/Fetcher/Throttle.antt =====
-- The delays of one host (hostState in internal/fetcher/ratelimit.go): the crawl delay, and the longer
-- one that a throttle asks for a while. Times and durations are nanoseconds, 0 is Go's zero time; the
-- lock makes each function a step. The semaphore, the sleeping and the TTFB samples are not here. Reset,
-- which a crawl calls at its start, drops every host: what comes after it is a new host, with timers of
-- its own, and no event of the old one.
pub mod Lasting
use seo_crawler_mcp.Prelude.{
  ℕ, zero, suc, ◌+◌, Bool, true, false, not, ◌&&◌, List, [], ◌∷◌, if◌then◌else◌, leb, ltb, ◌==◌,
}

pub record HostState : Type 0 where
  pub base_delay : ℕ
  pub throttle_delay : ℕ
  pub throttle_until : ℕ
  pub throttle_version : ℕ

unfoldable pub new_host_state : HostState
new_host_state = record {
  base_delay = 0;
  throttle_delay = 0;
  throttle_until = 0;
  throttle_version = 0;
}

unfoldable pub set_crawl_delay : HostState → ℕ → HostState
set_crawl_delay s delay = record s { base_delay = delay }

abbrev pub larger : ℕ → ℕ → ℕ
larger m n = if ltb m n then n else m

unfoldable pub throttle_host : HostState → ℕ → ℕ → HostState
throttle_host s now dur =
    let expires = now + dur in
    if leb dur 0
    then s
    else if leb dur s.throttle_delay && leb expires s.throttle_until
    then s
    else record s {
      throttle_delay = larger s.throttle_delay dur;
      throttle_until = larger s.throttle_until expires;
      throttle_version = suc s.throttle_version;
    }

-- The function that time.AfterFunc runs, with the version that its throttle had.
unfoldable pub on_timer : HostState → ℕ → ℕ → HostState
on_timer s version now =
    if s.throttle_version == version && leb s.throttle_until now
    then record s { throttle_delay = 0; throttle_until = 0 }
    else s

unfoldable pub expire : HostState → ℕ → HostState
expire s now =
    if not (s.throttle_until == 0) && leb s.throttle_until now
    then record s { throttle_delay = 0; throttle_until = 0 }
    else s

unfoldable pub effective_delay : HostState → ℕ → ℕ
effective_delay s now =
    let t = expire s now in
    if ltb t.base_delay t.throttle_delay then t.throttle_delay else t.base_delay

-- What may happen to a host until the limiter is reset, with the time at which it does.
pub data Event : Type 0 where
  robots_delay throttled timer_fires : ℕ → ℕ → Event
  acquired : ℕ → Event

unfoldable pub step_host : HostState → Event → HostState
step_host s (robots_delay now delay) = set_crawl_delay s delay
step_host s (throttled now dur) = throttle_host s now dur
step_host s (timer_fires now version) = on_timer s version now
step_host s (acquired now) = expire s now

unfoldable pub steps_host : HostState → List Event → HostState
steps_host s [] = s
steps_host s (e ∷ es) = steps_host (step_host s e) es
