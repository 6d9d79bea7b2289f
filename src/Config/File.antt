-- ===== src/Config/File.antt =====
-- LoadFromFile: the values of a file that are not the zero value replace the defaults.
use seo_crawler_mcp.Prelude.{
  Bool, ◌||◌, Option, none, some, List, Bytes, codes, is_empty, if◌then◌else◌,
}
use seo_crawler_mcp.Prelude.Int.{ℤ, is_zero}
use seo_crawler_mcp.Prelude.Result.{Result, ok, err, ◌>>=◌}
use seo_crawler_mcp.Config.{UrlGroupConfig, Config}

-- What is decoded from a file; of a pointer or a slice `none` is nil.
pub record TomlConfig : Type 0 where
  pub scope_mode : Bytes
  pub allowed_hosts : Option (List Bytes)
  pub request_timeout : Bytes
  pub max_response_body : ℤ
  pub max_decompressed_body : ℤ
  pub user_agent : Bytes
  pub retries : ℤ
  pub max_redirect_hops : ℤ
  pub per_host_concurrency : ℤ
  pub global_concurrency : ℤ
  pub max_pages : ℤ
  pub max_depth : ℤ
  pub max_discovered_urls : ℤ
  pub max_onboarded_hosts : ℤ
  pub max_crawl_duration : Bytes
  pub render_mode : Bytes
  pub render_provider : Bytes
  pub render_wait_ms : ℤ
  pub max_browser_instances : ℤ
  pub browser_render_timeout : Bytes
  pub browserbase_api_key : Bytes
  pub browserbase_project_id : Bytes
  pub force_render_patterns : Option (List Bytes)
  pub respect_robots : Option Bool
  pub robots_unreachable_policy : Bytes
  pub ignore_params : Option (List Bytes)
  pub max_query_variants_per_path : ℤ
  pub allow_insecure_tls : Option Bool
  pub allow_private_networks : Option Bool
  pub ssrf_protection : Option Bool
  pub title_max_length : ℤ
  pub title_min_length : ℤ
  pub description_max_length : ℤ
  pub description_min_length : ℤ
  pub thin_content_threshold : ℤ
  pub deep_page_threshold : ℤ
  pub max_concurrent_crawls : ℤ
  pub max_concurrent_analyze : ℤ
  pub max_jobs_per_hour : ℤ
  pub analyze_job_ttl : Bytes
  pub max_sitemap_entries : ℤ
  pub max_queue_memory_mb : ℤ
  pub db_path : Bytes
  pub max_job_age : Bytes
  pub psi_api_key : Bytes
  pub psi_max_pages : Option ℤ
  pub psi_desktop : Bool
  pub axe_max_pages : Option ℤ
  pub grammar_max_pages : Option ℤ
  pub language_tool_url : Bytes
  pub url_groups : Option (List UrlGroupConfig)

pub data ConfigError : Type 0 where
  loading_file : ConfigError
  parsing_duration parsing_bool : Bytes → ConfigError
  invalid_render_provider invalid_robots_unreachable_policy invalid_force_render_pattern :
      ConfigError
  negative_psi_max_pages negative_axe_max_pages negative_grammar_max_pages : ConfigError

unfoldable pub unless_empty : Bytes → Bytes → Bytes
unless_empty text current = if is_empty text then current else text

unfoldable pub unless_zero : ℤ → ℤ → ℤ
unless_zero n current = if is_zero n then current else n

unfoldable pub unless_nil : {A : Type 0} → Option A → A → A
unless_nil none current = current
unless_nil (some a) current = a

-- A duration that is not empty and cannot be parsed is an error.
unfoldable pub duration_or : (Bytes → Option ℤ) → Bytes → Bytes → ℤ → Result ConfigError ℤ
duration_or parse_duration key text current =
    if is_empty text
    then ok current
    else elim (parse_duration text) [ none ↦ err (parsing_duration key) | some d ↦ ok d ]

-- The values that cannot fail.
unfoldable pub with_values : TomlConfig → Config → Config
with_values tc cfg = record cfg {
  scope_mode = unless_empty tc.scope_mode cfg.scope_mode;
  allowed_hosts = unless_nil tc.allowed_hosts cfg.allowed_hosts;
  max_response_body = unless_zero tc.max_response_body cfg.max_response_body;
  max_decompressed_body = unless_zero tc.max_decompressed_body cfg.max_decompressed_body;
  user_agent = unless_empty tc.user_agent cfg.user_agent;
  retries = unless_zero tc.retries cfg.retries;
  max_redirect_hops = unless_zero tc.max_redirect_hops cfg.max_redirect_hops;
  per_host_concurrency = unless_zero tc.per_host_concurrency cfg.per_host_concurrency;
  global_concurrency = unless_zero tc.global_concurrency cfg.global_concurrency;
  max_pages = unless_zero tc.max_pages cfg.max_pages;
  max_depth = unless_zero tc.max_depth cfg.max_depth;
  max_discovered_urls = unless_zero tc.max_discovered_urls cfg.max_discovered_urls;
  max_onboarded_hosts = unless_zero tc.max_onboarded_hosts cfg.max_onboarded_hosts;
  render_mode = unless_empty tc.render_mode cfg.render_mode;
  render_provider = unless_empty tc.render_provider cfg.render_provider;
  render_wait_ms = unless_zero tc.render_wait_ms cfg.render_wait_ms;
  max_browser_instances = unless_zero tc.max_browser_instances cfg.max_browser_instances;
  browserbase_api_key = unless_empty tc.browserbase_api_key cfg.browserbase_api_key;
  browserbase_project_id = unless_empty tc.browserbase_project_id cfg.browserbase_project_id;
  force_render_patterns = unless_nil tc.force_render_patterns cfg.force_render_patterns;
  respect_robots = unless_nil tc.respect_robots cfg.respect_robots;
  robots_unreachable_policy =
      unless_empty tc.robots_unreachable_policy cfg.robots_unreachable_policy;
  ignore_params = unless_nil tc.ignore_params cfg.ignore_params;
  max_query_variants_per_path =
      unless_zero tc.max_query_variants_per_path cfg.max_query_variants_per_path;
  allow_insecure_tls = unless_nil tc.allow_insecure_tls cfg.allow_insecure_tls;
  allow_private_networks = unless_nil tc.allow_private_networks cfg.allow_private_networks;
  ssrf_protection = unless_nil tc.ssrf_protection cfg.ssrf_protection;
  title_max_length = unless_zero tc.title_max_length cfg.title_max_length;
  title_min_length = unless_zero tc.title_min_length cfg.title_min_length;
  description_max_length = unless_zero tc.description_max_length cfg.description_max_length;
  description_min_length = unless_zero tc.description_min_length cfg.description_min_length;
  thin_content_threshold = unless_zero tc.thin_content_threshold cfg.thin_content_threshold;
  deep_page_threshold = unless_zero tc.deep_page_threshold cfg.deep_page_threshold;
  max_concurrent_crawls = unless_zero tc.max_concurrent_crawls cfg.max_concurrent_crawls;
  max_concurrent_analyze = unless_zero tc.max_concurrent_analyze cfg.max_concurrent_analyze;
  max_jobs_per_hour = unless_zero tc.max_jobs_per_hour cfg.max_jobs_per_hour;
  max_sitemap_entries = unless_zero tc.max_sitemap_entries cfg.max_sitemap_entries;
  max_queue_memory_mb = unless_zero tc.max_queue_memory_mb cfg.max_queue_memory_mb;
  db_path = unless_empty tc.db_path cfg.db_path;
  psi_api_key = unless_empty tc.psi_api_key cfg.psi_api_key;
  psi_max_pages = unless_nil tc.psi_max_pages cfg.psi_max_pages;
  psi_desktop = tc.psi_desktop || cfg.psi_desktop;
  axe_max_pages = unless_nil tc.axe_max_pages cfg.axe_max_pages;
  grammar_max_pages = unless_nil tc.grammar_max_pages cfg.grammar_max_pages;
  language_tool_url = unless_empty tc.language_tool_url cfg.language_tool_url;
  url_groups = unless_nil tc.url_groups cfg.url_groups;
}

pub record Durations : Type 0 where
  pub request_timeout : ℤ
  pub max_crawl_duration : ℤ
  pub browser_render_timeout : ℤ
  pub analyze_job_ttl : ℤ
  pub max_job_age : ℤ

unfoldable pub file_durations :
    (Bytes → Option ℤ) → TomlConfig → Config → Result ConfigError Durations
file_durations parse_duration tc cfg = do
  request_timeout ←
      duration_or parse_duration (codes "request_timeout") tc.request_timeout cfg.request_timeout
  max_crawl_duration ←
      duration_or parse_duration (codes "max_crawl_duration") tc.max_crawl_duration
        cfg.max_crawl_duration
  browser_render_timeout ←
      duration_or parse_duration (codes "browser_render_timeout") tc.browser_render_timeout
        cfg.browser_render_timeout
  analyze_job_ttl ←
      duration_or parse_duration (codes "analyze_job_ttl") tc.analyze_job_ttl cfg.analyze_job_ttl
  max_job_age ← duration_or parse_duration (codes "max_job_age") tc.max_job_age cfg.max_job_age
  ok (record {
    request_timeout = request_timeout;
    max_crawl_duration = max_crawl_duration;
    browser_render_timeout = browser_render_timeout;
    analyze_job_ttl = analyze_job_ttl;
    max_job_age = max_job_age;
  })

unfoldable pub with_durations : Durations → Config → Config
with_durations durations cfg = record cfg {
  request_timeout = durations.request_timeout;
  max_crawl_duration = durations.max_crawl_duration;
  browser_render_timeout = durations.browser_render_timeout;
  analyze_job_ttl = durations.analyze_job_ttl;
  max_job_age = durations.max_job_age;
}
