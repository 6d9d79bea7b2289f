-- ===== src/Config/Valid.antt =====
-- How LoadConfig ranks the environment, the file and the defaults, on what passes its tests.
use seo_crawler_mcp.Prelude.{Bool, true, false, not, Option, Bytes, bytes_mem, any, ◌≡◌}
use seo_crawler_mcp.Prelude.Int.{ℤ, is_negative}
use seo_crawler_mcp.Config.{Config}
use seo_crawler_mcp.Config.Environment.{with_env}
use seo_crawler_mcp.Config.Loading.{render_providers, robots_unreachable_policies}

-- What the crawler relies on.
pub record IsValid (well_formed : Bytes → Bool) (cfg : Config) : Type 0 where
  pub provider : bytes_mem cfg.render_provider render_providers ≡ true
  pub policy : bytes_mem cfg.robots_unreachable_policy robots_unreachable_policies ≡ true
  pub patterns : any (λ pattern. not (well_formed pattern)) cfg.force_render_patterns ≡ false
  pub psi : is_negative cfg.psi_max_pages ≡ false
  pub axe : is_negative cfg.axe_max_pages ≡ false
  pub grammar : is_negative cfg.grammar_max_pages ≡ false

module _ (well_formed : Bytes → Bool) (getenv : Bytes → Bytes)
    (atoi parse_int parse_duration : Bytes → Option ℤ) where
  abbrev env : Config → Config
  env = with_env getenv atoi parse_int parse_duration
