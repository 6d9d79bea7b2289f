-- ===== src/Config/Loading.antt =====
-- validateConfig and LoadConfig.
use seo_crawler_mcp.Prelude.{
  Bool, not, Option, none, some, List, [], ◌∷◌, Bytes, codes, bytes_mem, any, if◌then◌else◌,
}
use seo_crawler_mcp.Prelude.Int.{ℤ, is_negative}
use seo_crawler_mcp.Prelude.Result.{Result, ok, err, ◌>>=◌}
use seo_crawler_mcp.Config.{Config, default_config}
use seo_crawler_mcp.Config.File.{
  TomlConfig, ConfigError, loading_file, invalid_render_provider, invalid_robots_unreachable_policy,
  invalid_force_render_pattern, negative_psi_max_pages, negative_axe_max_pages,
  negative_grammar_max_pages, with_values, file_durations, with_durations,
}
use seo_crawler_mcp.Config.Environment.{apply_env_overrides}

abbrev pub render_providers : List Bytes
render_providers = codes "local" ∷ codes "browserbase" ∷ codes "auto" ∷ []

abbrev pub robots_unreachable_policies : List Bytes
robots_unreachable_policies = codes "allow" ∷ codes "disallow" ∷ codes "cache_then_allow" ∷ []

-- Whether path.Match reads a pattern is the argument.
unfoldable pub validate_config : (Bytes → Bool) → Config → Result ConfigError Config
validate_config well_formed cfg =
    if not (bytes_mem cfg.render_provider render_providers)
    then err invalid_render_provider
    else if not (bytes_mem cfg.robots_unreachable_policy robots_unreachable_policies)
    then err invalid_robots_unreachable_policy
    else if any (λ pattern. not (well_formed pattern)) cfg.force_render_patterns
    then err invalid_force_render_pattern
    else if is_negative cfg.psi_max_pages
    then err negative_psi_max_pages
    else if is_negative cfg.axe_max_pages
    then err negative_axe_max_pages
    else if is_negative cfg.grammar_max_pages
    then err negative_grammar_max_pages
    else ok cfg

module _ (well_formed : Bytes → Bool) (getenv : Bytes → Bytes)
    (atoi parse_int parse_duration : Bytes → Option ℤ) where
  -- What the file decodes to, or that it does not.
  unfoldable pub load_from_file : Option TomlConfig → Result ConfigError Config
  load_from_file none = err loading_file
  load_from_file (some tc) =
      let cfg = with_values tc default_config in
      file_durations parse_duration tc cfg >>= λ durations.
      validate_config well_formed (with_durations durations cfg)

  -- No path, or the file at it.
  unfoldable pub base_config : Option (Option TomlConfig) → Result ConfigError Config
  base_config none = ok default_config
  base_config (some file) = load_from_file file

  unfoldable pub load_config : Option (Option TomlConfig) → Result ConfigError Config
  load_config path =
      base_config path
      >>= apply_env_overrides getenv atoi parse_int parse_duration
      >>= validate_config well_formed
