-- ===== src/Fetcher/Throttle/Lasting.antt =====
-- How long a throttle holds, and that it ends.
use seo_crawler_mcp.Prelude.{ℕ, ◌+◌, ◌<◌, ◌≤◌, List, [], ◌∷◌, All, arith, ◌≡◌}
use seo_crawler_mcp.Fetcher.Throttle.{
  HostState, set_crawl_delay, throttle_host, on_timer, expire, effective_delay, Event, robots_delay,
  throttled, timer_fires, acquired, step_host, steps_host,
}

-- The time of an event.
abbrev pub time_of : Event → ℕ
time_of (robots_delay now delay) = now
time_of (throttled now dur) = now
time_of (timer_fires now version) = now
time_of (acquired now) = now

-- The throttle asks for at least the delay, at least until the time.
IsThrottled : ℕ → ℕ → HostState → Type 0
IsThrottled delay until s = (delay ≤ s.throttle_delay) × (until ≤ s.throttle_until)

throttle_host-IsThrottled :
    (s : HostState) (now dur : ℕ) → 0 < dur → IsThrottled dur (now + dur) (throttle_host s now dur)
unfolding IsThrottled throttle_host
throttle_host-IsThrottled s now dur pos = ground arith

step_host-IsThrottled :
    (s : HostState) (delay until : ℕ) (e : Event)
    → IsThrottled delay until s
    → time_of e < until
    → IsThrottled delay until (step_host s e)
unfolding IsThrottled step_host set_crawl_delay throttle_host on_timer expire
step_host-IsThrottled s delay until (robots_delay now d) holds before = holds
step_host-IsThrottled s delay until (throttled now dur) holds before = ground arith
step_host-IsThrottled s delay until (timer_fires now version) holds before = ground arith
step_host-IsThrottled s delay until (acquired now) holds before = ground arith

steps_host-IsThrottled :
    (s : HostState) (delay until : ℕ) (es : List Event)
    → IsThrottled delay until s
    → All (λ e. time_of e < until) es
    → IsThrottled delay until (steps_host s es)
unfolding steps_host
steps_host-IsThrottled s delay until [] holds before = holds
steps_host-IsThrottled s delay until (e ∷ es) holds (now, later) =
    steps_host-IsThrottled (step_host s e) delay until es
      (step_host-IsThrottled s delay until e holds now) later

delay_of_IsThrottled :
    (s : HostState) (delay until now : ℕ)
    → IsThrottled delay until s
    → now < until
    → delay ≤ effective_delay s now
unfolding IsThrottled effective_delay expire
delay_of_IsThrottled s delay until now holds before = ground arith

-- From a throttle until its duration has passed, or until the limiter is reset, the delay of the host is
-- at least that duration, whatever else happens in between: other throttles, the timers of this one and
-- of earlier ones, a new crawl delay, and requests, each of which may end a throttle that is over.
pub throttle_lasts :
    (s : HostState) (start dur : ℕ) (es : List Event) (now : ℕ)
    → 0 < dur
    → All (λ e. time_of e < start + dur) es
    → now < start + dur
    → dur ≤ effective_delay (steps_host (throttle_host s start dur) es) now
throttle_lasts s start dur es now pos between before =
    delay_of_IsThrottled _ dur (start + dur) now
      (steps_host-IsThrottled _ dur (start + dur) es (throttle_host-IsThrottled s start dur pos)
        between)
      before

-- When the throttle of a host is over, its delay is the crawl delay, then and later, and the timer of
-- the last throttle leaves the host as a request does.
pub throttle_ends :
    (s : HostState) (now later : ℕ)
    → 0 < s.throttle_until
    → s.throttle_until ≤ now
    → now ≤ later
    → (effective_delay (expire s now) later ≡ s.base_delay)
      × (effective_delay s now ≡ s.base_delay)
      × (on_timer s s.throttle_version now ≡ expire s now)
unfolding effective_delay expire on_timer
throttle_ends s now later running over le = (ground arith, ground arith, ground arith)
