-- ===== src/Config/Environment.antt =====
-- applyEnvOverrides and parseBool. The boolean values, which can fail, come after the others, which do
-- not: they set other fields.
use seo_crawler_mcp.Prelude.{
  Bool, true, false, Option, none, some, List, [], ◌∷◌, Bytes, codes, bytes_mem, is_empty,
  if◌then◌else◌, trim_space, to_lower,
}
use seo_crawler_mcp.Prelude.Int.{ℤ}
use seo_crawler_mcp.Prelude.Split.{split}
use seo_crawler_mcp.Prelude.Result.{Result, ok, err, ◌>>=◌}
use seo_crawler_mcp.Config.{Config}
use seo_crawler_mcp.Config.File.{ConfigError, parsing_bool, unless_empty}

unfoldable pub parse_bool : Bytes → Option Bool
parse_bool s =
    let word = to_lower (trim_space s) in
    if bytes_mem word (codes "1" ∷ codes "true" ∷ codes "yes" ∷ codes "on" ∷ [])
    then some true
    else if bytes_mem word (codes "0" ∷ codes "false" ∷ codes "no" ∷ codes "off" ∷ [])
    then some false
    else none

-- A value that is set and can be read replaces the current one.
unfoldable pub read_or : {A : Type 0} → (Bytes → Option A) → Bytes → A → A
read_or read value current =
    if is_empty value then current else elim (read value) [ none ↦ current | some a ↦ a ]

unfoldable pub bool_or : Bytes → Bytes → Bool → Result ConfigError Bool
bool_or key value current =
    if is_empty value
    then ok current
    else elim (parse_bool value) [ none ↦ err (parsing_bool key) | some b ↦ ok b ]

unfoldable pub split_or : Bytes → List Bytes → List Bytes
split_or value current = if is_empty value then current else split b',' value

pub record EnvBools : Type 0 where
  pub respect_robots : Bool
  pub allow_insecure_tls : Bool
  pub allow_private_networks : Bool
  pub ssrf_protection : Bool
  pub psi_desktop : Bool

unfoldable pub with_bools : EnvBools → Config → Config
with_bools bools cfg = record cfg {
  respect_robots = bools.respect_robots;
  allow_insecure_tls = bools.allow_insecure_tls;
  allow_private_networks = bools.allow_private_networks;
  ssrf_protection = bools.ssrf_protection;
  psi_desktop = bools.psi_desktop;
}

module _ (getenv : Bytes → Bytes) (atoi parse_int parse_duration : Bytes → Option ℤ) where
  unfoldable pub with_env : Config → Config
  with_env cfg = record cfg {
    db_path = unless_empty (getenv (codes "SEO_CRAWLER_DB_PATH")) cfg.db_path;
    max_pages = read_or atoi (getenv (codes "SEO_CRAWLER_MAX_PAGES")) cfg.max_pages;
    user_agent = unless_empty (getenv (codes "SEO_CRAWLER_USER_AGENT")) cfg.user_agent;
    scope_mode = unless_empty (getenv (codes "SEO_CRAWLER_SCOPE_MODE")) cfg.scope_mode;
    max_depth = read_or atoi (getenv (codes "SEO_CRAWLER_MAX_DEPTH")) cfg.max_depth;
    max_discovered_urls =
        read_or atoi (getenv (codes "SEO_CRAWLER_MAX_DISCOVERED_URLS")) cfg.max_discovered_urls;
    max_onboarded_hosts =
        read_or atoi (getenv (codes "SEO_CRAWLER_MAX_ONBOARDED_HOSTS")) cfg.max_onboarded_hosts;
    max_crawl_duration =
        read_or parse_duration (getenv (codes "SEO_CRAWLER_MAX_CRAWL_DURATION"))
          cfg.max_crawl_duration;
    request_timeout =
        read_or parse_duration (getenv (codes "SEO_CRAWLER_REQUEST_TIMEOUT")) cfg.request_timeout;
    max_response_body =
        read_or parse_int (getenv (codes "SEO_CRAWLER_MAX_RESPONSE_BODY")) cfg.max_response_body;
    max_decompressed_body =
        read_or parse_int (getenv (codes "SEO_CRAWLER_MAX_DECOMPRESSED_BODY"))
          cfg.max_decompressed_body;
    retries = read_or atoi (getenv (codes "SEO_CRAWLER_RETRIES")) cfg.retries;
    max_redirect_hops =
        read_or atoi (getenv (codes "SEO_CRAWLER_MAX_REDIRECT_HOPS")) cfg.max_redirect_hops;
    per_host_concurrency =
        read_or atoi (getenv (codes "SEO_CRAWLER_PER_HOST_CONCURRENCY")) cfg.per_host_concurrency;
    global_concurrency =
        read_or atoi (getenv (codes "SEO_CRAWLER_GLOBAL_CONCURRENCY")) cfg.global_concurrency;
    render_mode = unless_empty (getenv (codes "SEO_CRAWLER_RENDER_MODE")) cfg.render_mode;
    render_provider =
        unless_empty (getenv (codes "SEO_CRAWLER_RENDER_PROVIDER")) cfg.render_provider;
    render_wait_ms = read_or atoi (getenv (codes "SEO_CRAWLER_RENDER_WAIT_MS")) cfg.render_wait_ms;
    browserbase_api_key =
        unless_empty (getenv (codes "BROWSERBASE_API_KEY")) cfg.browserbase_api_key;
    browserbase_project_id =
        unless_empty (getenv (codes "BROWSERBASE_PROJECT_ID")) cfg.browserbase_project_id;
    max_browser_instances =
        read_or atoi (getenv (codes "SEO_CRAWLER_MAX_BROWSER_INSTANCES")) cfg.max_browser_instances;
    browser_render_timeout =
        read_or parse_duration (getenv (codes "SEO_CRAWLER_BROWSER_RENDER_TIMEOUT"))
          cfg.browser_render_timeout;
    robots_unreachable_policy =
        unless_empty (getenv (codes "SEO_CRAWLER_ROBOTS_UNREACHABLE_POLICY"))
          cfg.robots_unreachable_policy;
    title_max_length =
        read_or atoi (getenv (codes "SEO_CRAWLER_TITLE_MAX_LENGTH")) cfg.title_max_length;
    title_min_length =
        read_or atoi (getenv (codes "SEO_CRAWLER_TITLE_MIN_LENGTH")) cfg.title_min_length;
    description_max_length =
        read_or atoi (getenv (codes "SEO_CRAWLER_DESCRIPTION_MAX_LENGTH"))
          cfg.description_max_length;
    description_min_length =
        read_or atoi (getenv (codes "SEO_CRAWLER_DESCRIPTION_MIN_LENGTH"))
          cfg.description_min_length;
    thin_content_threshold =
        read_or atoi (getenv (codes "SEO_CRAWLER_THIN_CONTENT_THRESHOLD"))
          cfg.thin_content_threshold;
    deep_page_threshold =
        read_or atoi (getenv (codes "SEO_CRAWLER_DEEP_PAGE_THRESHOLD")) cfg.deep_page_threshold;
    max_concurrent_crawls =
        read_or atoi (getenv (codes "SEO_CRAWLER_MAX_CONCURRENT_CRAWLS")) cfg.max_concurrent_crawls;
    max_concurrent_analyze =
        read_or atoi (getenv (codes "SEO_CRAWLER_MAX_CONCURRENT_ANALYZE"))
          cfg.max_concurrent_analyze;
    max_jobs_per_hour =
        read_or atoi (getenv (codes "SEO_CRAWLER_MAX_JOBS_PER_HOUR")) cfg.max_jobs_per_hour;
    analyze_job_ttl =
        read_or parse_duration (getenv (codes "SEO_CRAWLER_ANALYZE_JOB_TTL")) cfg.analyze_job_ttl;
    max_sitemap_entries =
        read_or atoi (getenv (codes "SEO_CRAWLER_MAX_SITEMAP_ENTRIES")) cfg.max_sitemap_entries;
    max_queue_memory_mb =
        read_or atoi (getenv (codes "SEO_CRAWLER_MAX_QUEUE_MEMORY_MB")) cfg.max_queue_memory_mb;
    max_query_variants_per_path =
        read_or atoi (getenv (codes "SEO_CRAWLER_MAX_QUERY_VARIANTS_PER_PATH"))
          cfg.max_query_variants_per_path;
    force_render_patterns =
        split_or (getenv (codes "SEO_CRAWLER_FORCE_RENDER_PATTERNS")) cfg.force_render_patterns;
    max_job_age = read_or parse_duration (getenv (codes "SEO_CRAWLER_MAX_JOB_AGE")) cfg.max_job_age;
    psi_api_key = unless_empty (getenv (codes "SEO_CRAWLER_PSI_API_KEY")) cfg.psi_api_key;
    psi_max_pages = read_or atoi (getenv (codes "SEO_CRAWLER_PSI_MAX_PAGES")) cfg.psi_max_pages;
    language_tool_url =
        unless_empty (getenv (codes "SEO_CRAWLER_LANGUAGETOOL_URL")) cfg.language_tool_url;
    grammar_max_pages =
        read_or atoi (getenv (codes "SEO_CRAWLER_GRAMMAR_MAX_PAGES")) cfg.grammar_max_pages;
    axe_max_pages = read_or atoi (getenv (codes "SEO_CRAWLER_AXE_MAX_PAGES")) cfg.axe_max_pages;
  }

  unfoldable pub env_bools : Config → Result ConfigError EnvBools
  env_bools cfg = do
    respect_robots ←
        bool_or (codes "SEO_CRAWLER_RESPECT_ROBOTS") (getenv (codes "SEO_CRAWLER_RESPECT_ROBOTS"))
          cfg.respect_robots
    allow_insecure_tls ←
        bool_or (codes "SEO_CRAWLER_ALLOW_INSECURE_TLS")
          (getenv (codes "SEO_CRAWLER_ALLOW_INSECURE_TLS")) cfg.allow_insecure_tls
    allow_private_networks ←
        bool_or (codes "SEO_CRAWLER_ALLOW_PRIVATE_NETWORKS")
          (getenv (codes "SEO_CRAWLER_ALLOW_PRIVATE_NETWORKS")) cfg.allow_private_networks
    ssrf_protection ←
        bool_or (codes "SEO_CRAWLER_SSRF_PROTECTION") (getenv (codes "SEO_CRAWLER_SSRF_PROTECTION"))
          cfg.ssrf_protection
    psi_desktop ←
        bool_or (codes "SEO_CRAWLER_PSI_DESKTOP") (getenv (codes "SEO_CRAWLER_PSI_DESKTOP"))
          cfg.psi_desktop
    ok (record {
      respect_robots = respect_robots;
      allow_insecure_tls = allow_insecure_tls;
      allow_private_networks = allow_private_networks;
      ssrf_protection = ssrf_protection;
      psi_desktop = psi_desktop;
    })

  unfoldable pub apply_env_overrides : Config → Result ConfigError Config
  apply_env_overrides cfg =
      let read = with_env cfg in env_bools read >>= λ bools. ok (with_bools bools read)
