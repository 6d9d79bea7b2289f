-- ===== src/Config.antt =====
-- The configuration (internal/config): DefaultConfig, LoadFromFile, applyEnvOverrides, validateConfig and
-- LoadConfig. Durations are nanoseconds. What the TOML decoder gives for a file, the environment,
-- time.ParseDuration, strconv and path.Match are arguments.
pub mod File
pub mod Environment
pub mod Loading
pub mod Valid
use seo_crawler_mcp.Prelude.{
  Bool, true, false, ◌||◌, Option, none, some, List, [], ◌∷◌, Bytes, codes, any, is_empty, length,
  ◌==◌, if◌then◌else◌,
}
use seo_crawler_mcp.Prelude.Int.{ℤ, pos}

pub record UrlGroupConfig : Type 0 where
  pub name : Bytes
  pub pattern : Bytes
  pub thin_content_threshold : Option ℤ

pub record Config : Type 0 where
  pub scope_mode : Bytes
  pub allowed_hosts : List Bytes
  pub request_timeout : ℤ
  pub max_response_body : ℤ
  pub max_decompressed_body : ℤ
  pub user_agent : Bytes
  pub retries : ℤ
  pub max_redirect_hops : ℤ
  pub per_host_concurrency : ℤ
  pub global_concurrency : ℤ
  pub max_pages : ℤ
  pub max_depth : ℤ
  pub max_discovered_urls : ℤ
  pub max_onboarded_hosts : ℤ
  pub max_crawl_duration : ℤ
  pub render_mode : Bytes
  pub render_provider : Bytes
  pub render_wait_ms : ℤ
  pub max_browser_instances : ℤ
  pub browser_render_timeout : ℤ
  pub browserbase_api_key : Bytes
  pub browserbase_project_id : Bytes
  pub force_render_patterns : List Bytes
  pub respect_robots : Bool
  pub robots_unreachable_policy : Bytes
  pub ignore_params : List Bytes
  pub max_query_variants_per_path : ℤ
  pub allow_insecure_tls : Bool
  pub allow_private_networks : Bool
  pub ssrf_protection : Bool
  pub title_max_length : ℤ
  pub title_min_length : ℤ
  pub description_max_length : ℤ
  pub description_min_length : ℤ
  pub thin_content_threshold : ℤ
  pub deep_page_threshold : ℤ
  pub max_concurrent_crawls : ℤ
  pub max_concurrent_analyze : ℤ
  pub max_jobs_per_hour : ℤ
  pub analyze_job_ttl : ℤ
  pub max_sitemap_entries : ℤ
  pub max_queue_memory_mb : ℤ
  pub db_path : Bytes
  pub max_job_age : ℤ
  pub psi_api_key : Bytes
  pub psi_max_pages : ℤ
  pub psi_desktop : Bool
  pub axe_max_pages : ℤ
  pub grammar_max_pages : ℤ
  pub language_tool_url : Bytes
  pub url_groups : List UrlGroupConfig

unfoldable pub default_config : Config
default_config = record {
  scope_mode = codes "registrable_domain";
  allowed_hosts = [];
  request_timeout = pos 10000000000;
  max_response_body = pos 5242880;
  max_decompressed_body = pos 20971520;
  user_agent = codes "seo-crawler-mcp/0.1";
  retries = pos 1;
  max_redirect_hops = pos 10;
  per_host_concurrency = pos 2;
  global_concurrency = pos 8;
  max_pages = pos 10000;
  max_depth = pos 50;
  max_discovered_urls = pos 100000;
  max_onboarded_hosts = pos 50;
  max_crawl_duration = pos 1800000000000;
  render_mode = codes "hybrid";
  render_provider = codes "auto";
  render_wait_ms = pos 2000;
  max_browser_instances = pos 2;
  browser_render_timeout = pos 30000000000;
  browserbase_api_key = [];
  browserbase_project_id = [];
  force_render_patterns = [];
  respect_robots = true;
  robots_unreachable_policy = codes "allow";
  ignore_params =
      codes "utm_*"
      ∷ codes "fbclid"
      ∷ codes "gclid"
      ∷ codes "gbraid"
      ∷ codes "wbraid"
      ∷ codes "msclkid"
      ∷ codes "mc_cid"
      ∷ codes "mc_eid"
      ∷ [];
  max_query_variants_per_path = pos 50;
  allow_insecure_tls = false;
  allow_private_networks = false;
  ssrf_protection = true;
  title_max_length = pos 60;
  title_min_length = pos 30;
  description_max_length = pos 160;
  description_min_length = pos 70;
  thin_content_threshold = pos 200;
  deep_page_threshold = pos 3;
  max_concurrent_crawls = pos 3;
  max_concurrent_analyze = pos 50;
  max_jobs_per_hour = pos 20;
  analyze_job_ttl = pos 86400000000000;
  max_sitemap_entries = pos 500000;
  max_queue_memory_mb = pos 100;
  db_path = codes "seo-crawler.db";
  max_job_age = pos 0;
  psi_api_key = [];
  psi_max_pages = pos 50;
  psi_desktop = false;
  axe_max_pages = pos 50;
  grammar_max_pages = pos 50;
  language_tool_url = [];
  url_groups = [];
}

-- The path of a URL that net/url parses, and whether path.Match finds that a pattern fits.
unfoldable pub matches_force_render :
    (Bytes → Option Bytes) → (Bytes → Bytes → Bool) → Config → Bytes → Bool
matches_force_render path_of fits config raw =
    if length config.force_render_patterns == 0 then false else elim (path_of raw) [
      | none ↦ false
      | some p ↦ any (λ pattern. fits pattern p) config.force_render_patterns
    ]
