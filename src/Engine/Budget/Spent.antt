-- ===== src/Engine/Budget/Spent.antt =====
-- The grants of found URLs, and that the metric of a spent budget is emitted once.
use seo_crawler_mcp.Prelude.{
  ℕ, zero, suc, ◌+◌, Bool, [], Bytes, codes, bytes_mem, if◌then◌else◌, leb, ltb, ◌≡◌,
}
use seo_crawler_mcp.Engine.Budget.{HostOnboarding, reserve_discovered_url}

abbrev pub one_if : Bool → ℕ
one_if b = if b then 1 else 0

-- So many calls one after the other: how many are granted, how many metrics are emitted.
pub record Spending : Type 0 where
  pub granted : ℕ
  pub emitted : ℕ
  pub state : HostOnboarding

abbrev pub with_answer : Spending → (Bool × Bool) × HostOnboarding → Spending
with_answer before ((may, emits), after) = record {
  granted = before.granted + one_if may;
  emitted = before.emitted + one_if emits;
  state = after;
}

unfoldable pub reserved : ℕ → HostOnboarding → Spending
reserved zero state = record { granted = 0; emitted = 0; state = state }
reserved (suc n) state =
    let before = reserved n state in with_answer before (reserve_discovered_url before.state)

abbrev pub fresh : ℕ → HostOnboarding
fresh limit = record { max_discovered_urls = limit; queued_discovered = 0; budget_events = [] }

abbrev pub smaller : ℕ → ℕ → ℕ
smaller a b = if leb a b then a else b

abbrev reason : Bytes
reason = codes "max_discovered_urls"

-- The state after so many.
record IsAt (limit n : ℕ) (state : HostOnboarding) : Type 0 where
  same : state.max_discovered_urls ≡ limit
  spent : state.queued_discovered ≡ smaller n limit
  noted : bytes_mem reason state.budget_events ≡ ltb limit n

record IsSpent (limit n : ℕ) (s : Spending) : Type 0 where
  at : IsAt limit n s.state
  granted : s.granted ≡ smaller n limit
  emitted : s.emitted ≡ one_if (ltb limit n)
