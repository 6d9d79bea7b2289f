-- ===== src/Issues/Detect.antt =====
-- DetectPageLocalIssues (internal/issues/pagelocal.go): all detectors in their order.
pub mod Severe
use seo_crawler_mcp.Prelude.{ℕ, List, ◌++◌}
use seo_crawler_mcp.Issues.{DetectedIssue, PageContext, Thresholds, Tools}
use seo_crawler_mcp.Issues.Urls.{detect_url_issues}
use seo_crawler_mcp.Issues.Basics.{
  status_issues, redirect_issues, title_issues, description_issues, heading_issues,
  open_graph_issues, twitter_issues, structured_data_issues,
}
use seo_crawler_mcp.Issues.Markup.{
  content_issues, performance_issues, robots_issues, head_issues, meta_issues, h1_issues, h2_issues,
  canonical_issues, image_issues, link_issues,
}
use seo_crawler_mcp.Issues.Content.{
  security_issues, outlink_issues, hreflang_issues, html_issues, filler_issues, soft_404_issues,
}

unfoldable pub detect_page_local_issues : Tools → PageContext → Thresholds → ℕ → List DetectedIssue
detect_page_local_issues tools ctx t depth =
    (status_issues ctx ++ redirect_issues ctx ++ title_issues ctx t ++ description_issues ctx t)
    ++ (heading_issues ctx
        ++ open_graph_issues ctx
        ++ twitter_issues ctx
        ++ structured_data_issues tools ctx
        ++ content_issues ctx t
        ++ performance_issues ctx t depth
        ++ robots_issues ctx
        ++ head_issues ctx
        ++ meta_issues ctx
        ++ h1_issues ctx
        ++ h2_issues ctx
        ++ canonical_issues ctx
        ++ image_issues ctx
        ++ link_issues ctx
        ++ detect_url_issues tools ctx.page_url
        ++ security_issues tools ctx
        ++ outlink_issues ctx
        ++ hreflang_issues tools ctx
        ++ html_issues ctx
        ++ filler_issues ctx
        ++ soft_404_issues ctx)
