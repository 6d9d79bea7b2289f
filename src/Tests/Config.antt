-- ===== src/Tests/Config.antt =====
-- Configurations that are loaded (internal/config), and the theorems at them.
use seo_crawler_mcp.Prelude.{
  Bool, true, false, Option, none, some, [], Bytes, codes, bytes_eq, bytes_mem, if◌then◌else◌, ◌≡◌,
  refl, trim_space, trim_left, trim_right, is_space, to_lower, to_lower_byte,
}
use seo_crawler_mcp.Prelude.Int.{ℤ, pos, negsuc, is_zero, is_negative}
use seo_crawler_mcp.Prelude.Result.{ok, err}
use seo_crawler_mcp.Prelude.Split.{split, cons_head}
use seo_crawler_mcp.Config.{Config, default_config, matches_force_render}
use seo_crawler_mcp.Config.File.{
  TomlConfig, parsing_bool, negative_psi_max_pages, unless_empty, unless_zero, unless_nil,
  duration_or, with_values, file_durations, with_durations,
}
use seo_crawler_mcp.Config.Environment.{
  parse_bool, read_or, bool_or, split_or, with_env, env_bools, with_bools, apply_env_overrides,
}
use seo_crawler_mcp.Config.Loading.{validate_config, load_from_file, base_config, load_config}

configuring : Unit {0}
unfolding bytes_eq bytes_mem trim_space trim_left trim_right is_space to_lower to_lower_byte is_zero
    is_negative split cons_head default_config matches_force_render unless_empty unless_zero
    unless_nil duration_or with_values file_durations with_durations parse_bool read_or bool_or
    split_or with_env env_bools with_bools apply_env_overrides validate_config load_from_file
    base_config load_config
configuring = tt

-- An environment of one number, and one of a text that is no Boolean value.
abbrev fewer_pages : Bytes → Bytes
fewer_pages key = if bytes_eq key (codes "SEO_CRAWLER_MAX_PAGES") then codes "7" else []

abbrev perhaps : Bytes → Bytes
perhaps key = if bytes_eq key (codes "SEO_CRAWLER_RESPECT_ROBOTS") then codes "perhaps" else []

abbrev seven : Bytes → Option ℤ
seven text = if bytes_eq text (codes "7") then some (pos 7) else none

abbrev nothing : Bytes → Option ℤ
nothing text = none

abbrev reads : Bytes → Bool
reads pattern = true

abbrev file : TomlConfig
file = record {
  scope_mode = [];
  allowed_hosts = none;
  request_timeout = [];
  max_response_body = pos 0;
  max_decompressed_body = pos 0;
  user_agent = [];
  retries = pos 0;
  max_redirect_hops = pos 0;
  per_host_concurrency = pos 0;
  global_concurrency = pos 0;
  max_pages = pos 30;
  max_depth = pos 0;
  max_discovered_urls = pos 0;
  max_onboarded_hosts = pos 0;
  max_crawl_duration = [];
  render_mode = [];
  render_provider = [];
  render_wait_ms = pos 0;
  max_browser_instances = pos 0;
  browser_render_timeout = [];
  browserbase_api_key = [];
  browserbase_project_id = [];
  force_render_patterns = none;
  respect_robots = none;
  robots_unreachable_policy = [];
  ignore_params = none;
  max_query_variants_per_path = pos 0;
  allow_insecure_tls = none;
  allow_private_networks = none;
  ssrf_protection = none;
  title_max_length = pos 0;
  title_min_length = pos 0;
  description_max_length = pos 0;
  description_min_length = pos 0;
  thin_content_threshold = pos 0;
  deep_page_threshold = pos 0;
  max_concurrent_crawls = pos 5;
  max_concurrent_analyze = pos 0;
  max_jobs_per_hour = pos 0;
  analyze_job_ttl = [];
  max_sitemap_entries = pos 0;
  max_queue_memory_mb = pos 0;
  db_path = [];
  max_job_age = [];
  psi_api_key = [];
  psi_max_pages = none;
  psi_desktop = false;
  axe_max_pages = none;
  grammar_max_pages = none;
  language_tool_url = [];
  url_groups = none;
}

abbrev loaded : Config
loaded = record default_config { max_pages = pos 7; max_concurrent_crawls = pos 5 }

load_config_runs :
    (load_config reads fewer_pages seven nothing nothing (some (some file)) ≡ ok loaded)
    × (load_config reads perhaps seven nothing nothing none
        ≡ err (parsing_bool (codes "SEO_CRAWLER_RESPECT_ROBOTS")))
    × (load_config reads fewer_pages seven nothing nothing
          (some (some (record file { psi_max_pages = some (negsuc 0) })))
        ≡ err negative_psi_max_pages)
unfolding configuring
load_config_runs = (refl, refl, refl)
