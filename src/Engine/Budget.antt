-- ===== src/Engine/Budget.antt =====
-- reserveDiscoveredURL and recordBudgetHit in internal/engine/engine.go. Each locked block is a function,
-- and a refused call runs the two blocks one after the other: what other calls do between them is
-- nothing the second block reads but the reasons, which only it writes. The metric is a result.
pub mod Spent
use seo_crawler_mcp.Prelude.{
  ℕ, ◌+◌, Bool, true, false, not, ◌||◌, List, [], ◌∷◌, Bytes, codes, bytes_mem, if◌then◌else◌, leb,
  ◌==◌,
}

-- A limit that is not positive, which allows everything, is 0.
pub record HostOnboarding : Type 0 where
  pub max_discovered_urls : ℕ
  pub queued_discovered : ℕ
  pub budget_events : List Bytes

-- Whether the metric is emitted.
unfoldable pub record_budget_hit : Bytes → HostOnboarding → Bool × HostOnboarding
record_budget_hit reason state =
    if bytes_mem reason state.budget_events
    then (false, state)
    else (true, record state { budget_events = reason ∷ state.budget_events })

-- Whether the URL may be queued, and whether the metric is emitted.
unfoldable pub reserve_discovered_url : HostOnboarding → (Bool × Bool) × HostOnboarding
reserve_discovered_url state =
    if state.max_discovered_urls == 0
    then ((true, false), state)
    else if leb state.max_discovered_urls state.queued_discovered
    then (let hit = record_budget_hit (codes "max_discovered_urls") state in
        ((false, hit.0), hit.1))
    else ((true, false), record state { queued_discovered = state.queued_discovered + 1 })
