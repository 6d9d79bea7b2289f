-- ===== src/Engine/Limits.antt =====
-- The limits of a job in internal/engine/engine.go: its own, from its JSON, or the server's. What
-- json.Unmarshal gives for a struct of one field is an argument: `none` for an error, and within that
-- `none` where the field is not there.
use seo_crawler_mcp.Prelude.{suc, Option, none, some, Bytes, codes, is_empty, if◌then◌else◌}
use seo_crawler_mcp.Prelude.Int.{ℤ, pos, is_negative}
use seo_crawler_mcp.Prelude.Result.{ok, err}
use seo_crawler_mcp.Storage.Jobs.{CrawlJob, Jobs, get_job}
use seo_crawler_mcp.Config.{Config}

-- A limit of the job that is positive.
unfoldable pub positive_or : ℤ → Option (Option ℤ) → ℤ
positive_or current (some (some (pos (suc n)))) = pos (suc n)
positive_or current _ = current

unfoldable pub at_least_zero : ℤ → ℤ
at_least_zero n = if is_negative n then pos 0 else n

unfoldable pub given_or : ℤ → Option (Option ℤ) → ℤ
given_or current (some (some n)) = n
given_or current _ = current

-- A text of the job that is not empty.
unfoldable pub text_given : Option (Option Bytes) → Option Bytes
text_given (some (some text)) = if is_empty text then none else some text
text_given _ = none

module _ (int_field : Bytes → Bytes → Option (Option ℤ))
    (text_field : Bytes → Bytes → Option (Option Bytes)) (parse_duration : Bytes → Option ℤ) where
  unfoldable pub effective_max_pages : Config → CrawlJob → ℤ
  effective_max_pages config job =
      positive_or config.max_pages (int_field (codes "maxPages") job.config_json)

  unfoldable pub effective_max_depth : Config → CrawlJob → ℤ
  effective_max_depth config job =
      positive_or config.max_depth (int_field (codes "maxDepth") job.config_json)

  unfoldable pub effective_max_discovered_urls : Config → CrawlJob → ℤ
  effective_max_discovered_urls config job =
      positive_or config.max_discovered_urls (int_field (codes "maxDiscoveredUrls") job.config_json)

  unfoldable pub effective_max_onboarded_hosts : Config → CrawlJob → ℤ
  effective_max_onboarded_hosts config job =
      positive_or config.max_onboarded_hosts (int_field (codes "maxOnboardedHosts") job.config_json)

  unfoldable pub effective_max_crawl_duration : Config → CrawlJob → ℤ
  effective_max_crawl_duration config job =
      elim (text_given (text_field (codes "maxCrawlDuration") job.config_json)) [
        | none ↦ config.max_crawl_duration
        | some text ↦ elim (parse_duration text) [ none ↦ config.max_crawl_duration | some d ↦ d ]
      ]

  unfoldable pub effective_render_mode : Config → CrawlJob → Bytes
  effective_render_mode config job =
      elim (text_given (text_field (codes "renderMode") job.config_json)) [
        | none ↦ config.render_mode
        | some mode ↦ mode
      ]

  -- The limit of an audit, with the job read from the table.
  unfoldable pub audit_limit : Bytes → ℤ → Jobs → Bytes → ℤ
  audit_limit key limit js id = at_least_zero (elim (get_job js id) [
    | err _ ↦ limit
    | ok job ↦ given_or limit (int_field key job.config_json)
  ])

  unfoldable pub effective_psi_max_pages : Config → Jobs → Bytes → ℤ
  effective_psi_max_pages config js id =
      audit_limit (codes "psiMaxPages") config.psi_max_pages js id

  unfoldable pub effective_axe_max_pages : Config → Jobs → Bytes → ℤ
  effective_axe_max_pages config js id =
      audit_limit (codes "axeMaxPages") config.axe_max_pages js id

  unfoldable pub effective_grammar_max_pages : Config → Jobs → Bytes → ℤ
  effective_grammar_max_pages config js id =
      audit_limit (codes "grammarMaxPages") config.grammar_max_pages js id
