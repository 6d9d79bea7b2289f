-- ===== src/Tests/Throttle.antt =====
-- Runs of the delays of a host, and their theorems at inputs.
use seo_crawler_mcp.Prelude.{◌≤◌, List, [], ◌∷◌, ◌≡◌, refl, arith}
use seo_crawler_mcp.Fetcher.Throttle.{
  HostState, new_host_state, set_crawl_delay, throttle_host, on_timer, expire, effective_delay,
  Event, robots_delay, throttled, timer_fires, acquired, step_host, steps_host,
}
use seo_crawler_mcp.Fetcher.Throttle.Lasting.{throttle_lasts}

delaying : Unit {0}
unfolding new_host_state set_crawl_delay throttle_host on_timer expire effective_delay step_host
    steps_host
delaying = tt

abbrev busy : List Event
busy = robots_delay 101 5 ∷ throttled 102 3 ∷ timer_fires 105 1 ∷ acquired 109 ∷ []

throttle_runs :
    (effective_delay (steps_host (throttle_host new_host_state 100 30) busy) 110 ≡ 30)
    × (effective_delay (steps_host (throttle_host new_host_state 100 30) busy) 130 ≡ 5)
unfolding delaying
throttle_runs = (refl, refl)

throttle_lasts_example :
    30 ≤ effective_delay (steps_host (throttle_host new_host_state 100 30) busy) 129
throttle_lasts_example =
    throttle_lasts new_host_state 100 30 busy 129 (omega arith)
      (omega arith, (omega arith, (omega arith, (omega arith, tt)))) (omega arith)

abbrev waiting : HostState
waiting = record { base_delay = 5; throttle_delay = 30; throttle_until = 130; throttle_version = 1 }
