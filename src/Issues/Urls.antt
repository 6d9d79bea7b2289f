-- ===== src/Issues/Urls.antt =====
-- DetectURLIssues (internal/issues/pagelocal.go).
use seo_crawler_mcp.Prelude.{
  Bool, not, ◌||◌, none, some, List, [], ◌∷◌, ◌++◌, Bytes, codes, ltb, length, contains, is_empty,
}
use seo_crawler_mcp.UrlUtil.Normalize.{Url}
use seo_crawler_mcp.Issues.{DetectedIssue, new_issue, raise_if, number, text, texts, Tools}
use seo_crawler_mcp.Issues.IssueTypes.{
  warning, info, url_uppercase, url_underscores, url_contains_space, url_has_parameters,
  url_too_long, url_multiple_slashes, url_repetitive_path,
}
use seo_crawler_mcp.Issues.Texts.{has_uppercase, find_repetitive_segment}

unfoldable pub has_space : Bytes → Url → Bool
has_space raw u =
    contains raw (codes "%20") || contains u.raw_query (codes "+") || contains u.path (codes "+")

unfoldable pub parsed_url_issues : Tools → Bytes → Url → List DetectedIssue
parsed_url_issues tools raw u =
    let seg = find_repetitive_segment u.path in
    raise_if (has_uppercase u.path) (new_issue url_uppercase info ((codes "url", text raw) ∷ []))
    ++ raise_if (contains u.path (codes "_"))
        (new_issue url_underscores info ((codes "url", text raw) ∷ []))
    ++ raise_if (has_space raw u)
        (new_issue url_contains_space warning ((codes "url", text raw) ∷ []))
    ++ raise_if (not (is_empty u.raw_query)) (
        new_issue url_has_parameters info
          ((codes "url", text raw) ∷ (codes "params", texts (tools.query_keys u.raw_query)) ∷ []))
    ++ raise_if (ltb 115 (length raw)) (
        new_issue url_too_long info
          ((codes "url", text raw) ∷ (codes "length", number (length raw)) ∷ []))
    ++ raise_if (contains u.path (codes "//"))
        (new_issue url_multiple_slashes warning ((codes "url", text raw) ∷ []))
    ++ raise_if (not (is_empty seg)) (
        new_issue url_repetitive_path warning
          ((codes "url", text raw) ∷ (codes "repeatedSegment", text seg) ∷ []))

unfoldable pub detect_url_issues : Tools → Bytes → List DetectedIssue
detect_url_issues tools [] = []
detect_url_issues tools (c ∷ raw) = elim (tools.parse (c ∷ raw)) [
  | none ↦ []
  | some u ↦ parsed_url_issues tools (c ∷ raw) u
]
