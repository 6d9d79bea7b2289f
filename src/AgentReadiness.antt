-- ===== src/AgentReadiness.antt =====
-- The checks of internal/agentreadiness on what a site answered. Of a result, the evidence and the
-- headers, which repeat the inputs, and the resources, which are fixed links, are left out.
pub mod Links
pub mod Robots
pub mod Endpoints
pub mod Homepages
use seo_crawler_mcp.Prelude.{
  ℕ, Bool, true, false, Option, none, some, List, [], ◌∷◌, Bytes, codes, ◌==◌, if◌then◌else◌,
}

pub data CheckStatus : Type 0 where
  pass warning fail optional : CheckStatus

pub data Category : Type 0 where
  discoverability content_accessibility bot_access_control protocol_discovery commerce : Category

pub record CheckResult : Type 0 where
  pub category : Category
  pub check_key : Bytes
  pub status : CheckStatus
  pub score : ℕ
  pub target_url : Bytes
  pub endpoint : Bytes
  pub method : Bytes
  pub response_status : Option ℕ
  pub recommendation : Bytes

unfoldable pub is_pass : CheckStatus → Bool
is_pass pass = true
is_pass warning = false
is_pass fail = false
is_pass optional = false

-- strings.Cut at a byte.
unfoldable pub cut_at : ℕ → Bytes → Option (Bytes × Bytes)
cut_at sep [] = none
cut_at sep (c ∷ s) =
    let later : Option (Bytes × Bytes) = elim (cut_at sep s) [
      | none ↦ none
      | some (before, after) ↦ some (c ∷ before, after)
    ] in
    if c == sep then some ([], s) else later
