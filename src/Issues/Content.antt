-- ===== src/Issues/Content.antt =====
-- The last detectors of DetectPageLocalIssues (internal/issues/pagelocal.go): security, alternate
-- languages, the markup of the page and its text.
use seo_crawler_mcp.Prelude.{
  ◌*◌, ◌/◌, Bool, false, not, ◌&&◌, ◌||◌, none, some, List, [], ◌∷◌, ◌++◌, Bytes, codes, ltb, ◌==◌,
  length, any, bytes_eq, is_empty, contains, to_lower, trim_right, if◌then◌else◌,
}
use seo_crawler_mcp.Issues.{
  DetectedIssue, new_issue, raise_if, gather, number, text, texts, HreflangEntry, PageContext,
  Tools,
}
use seo_crawler_mcp.Issues.IssueTypes.{
  warning, info, missing_hsts_header, missing_x_content_type_options, missing_x_frame_options,
  missing_content_security_policy, missing_referrer_policy, unsafe_cross_origin_links, form_on_http,
  protocol_relative_urls, hreflang_missing_self, hreflang_missing_x_default,
  hreflang_invalid_language_code, hreflang_outside_head, invalid_html_in_head, multiple_head_tags,
  multiple_body_tags, html_too_large, lorem_ipsum_detected, soft_404,
}
use seo_crawler_mcp.Issues.Texts.{get_header, is_secure_referrer_policy}
use seo_crawler_mcp.Issues.Texts.Hreflang.{is_valid_hreflang_code}

unfoldable pub is_https : Tools → Bytes → Bool
is_https tools raw = elim (tools.parse raw) [
  | none ↦ false
  | some u ↦ bytes_eq u.scheme (codes "https")
]

unfoldable pub header_issues : Bool → List (Bytes × List Bytes) → List DetectedIssue
header_issues https headers =
    let rp = get_header headers (codes "Referrer-Policy") in
    raise_if (https && is_empty (get_header headers (codes "Strict-Transport-Security")))
      (new_issue missing_hsts_header warning [])
    ++ raise_if (is_empty (get_header headers (codes "X-Content-Type-Options")))
        (new_issue missing_x_content_type_options info [])
    ++ raise_if (is_empty (get_header headers (codes "X-Frame-Options")))
        (new_issue missing_x_frame_options info [])
    ++ raise_if (is_empty (get_header headers (codes "Content-Security-Policy")))
        (new_issue missing_content_security_policy info [])
    ++ raise_if (is_empty rp || not (is_secure_referrer_policy rp))
        (new_issue missing_referrer_policy info [])

unfoldable pub security_issues : Tools → PageContext → List DetectedIssue
security_issues tools ctx = elim ctx.response_headers [
  | none ↦ []
  | some headers ↦ header_issues (is_https tools ctx.page_url) headers
]

unfoldable pub outlink_issues : PageContext → List DetectedIssue
outlink_issues ctx =
    raise_if (ltb 0 ctx.unsafe_cross_origin_count) (
      new_issue unsafe_cross_origin_links warning (
        (codes "count", number ctx.unsafe_cross_origin_count)
        ∷ (codes "examples", texts ctx.unsafe_cross_origin_examples)
        ∷ []))
    ++ gather
        (λ action. new_issue form_on_http warning ((codes "formAction", text action) ∷ []) ∷ [])
        ctx.form_insecure_actions
    ++ raise_if (ltb 0 ctx.protocol_relative_count) (
        new_issue protocol_relative_urls info
          ((codes "count", number ctx.protocol_relative_count) ∷ []))

unfoldable pub normalize_for_comparison : Tools → Bytes → Bytes
normalize_for_comparison tools raw = elim (tools.parse raw) [
  | none ↦ raw
  | some u ↦
      let path = trim_right (◌==◌ b'/') u.path in
      tools.print (record u { path = if is_empty path then codes "/" else path })
]

unfoldable pub is_self : Tools → Bytes → HreflangEntry → Bool
is_self tools page_url entry =
    bytes_eq (normalize_for_comparison tools entry.url) (normalize_for_comparison tools page_url)

unfoldable pub is_x_default : HreflangEntry → Bool
is_x_default entry = bytes_eq (to_lower entry.lang) (codes "x-default")

unfoldable pub code_issues : HreflangEntry → List DetectedIssue
code_issues entry =
    raise_if (not (is_x_default entry) && not (is_valid_hreflang_code (to_lower entry.lang))) (
      new_issue hreflang_invalid_language_code warning
        ((codes "invalidCode", text entry.lang) ∷ (codes "url", text entry.url) ∷ []))

unfoldable pub hreflang_issues : Tools → PageContext → List DetectedIssue
hreflang_issues tools ctx =
    (if length ctx.hreflangs == 0
      then []
      else raise_if (not (any (is_self tools ctx.page_url) ctx.hreflangs))
          (new_issue hreflang_missing_self warning ((codes "pageUrl", text ctx.page_url) ∷ []))
        ++ raise_if (not (any is_x_default ctx.hreflangs))
            (new_issue hreflang_missing_x_default warning [])
        ++ gather code_issues ctx.hreflangs)
    ++ raise_if ctx.hreflang_outside_head (new_issue hreflang_outside_head warning [])

unfoldable pub html_issues : PageContext → List DetectedIssue
html_issues ctx =
    raise_if (ltb 0 (length ctx.invalid_html_in_head)) (
      new_issue invalid_html_in_head warning
        ((codes "elements", texts ctx.invalid_html_in_head) ∷ []))
    ++ raise_if (ltb 1 ctx.head_tag_count)
        (new_issue multiple_head_tags warning ((codes "count", number ctx.head_tag_count) ∷ []))
    ++ raise_if (ltb 1 ctx.body_tag_count)
        (new_issue multiple_body_tags warning ((codes "count", number ctx.body_tag_count) ∷ []))
    ++ raise_if (ltb (15 * 1024 * 1024) ctx.body_size)
        (new_issue html_too_large warning ((codes "sizeKB", number (ctx.body_size / 1024)) ∷ []))

unfoldable pub filler_issues : PageContext → List DetectedIssue
filler_issues ctx =
    raise_if
      (not (is_empty ctx.text_content)
        && contains (to_lower ctx.text_content) (codes "lorem ipsum"))
      (new_issue lorem_ipsum_detected warning [])

unfoldable pub soft_404_patterns : List Bytes
soft_404_patterns =
    codes "page not found"
    ∷ codes "404"
    ∷ codes "not found"
    ∷ codes "doesn't exist"
    ∷ codes "does not exist"
    ∷ codes "no longer available"
    ∷ []

unfoldable pub soft_404_signal : Bytes → Bytes → DetectedIssue
soft_404_signal place pattern =
    new_issue soft_404 info
      ((codes "signal", text (place ++ codes " contains '" ++ pattern ++ codes "'")) ∷ [])

-- The loop over the patterns, which ends at the first that either text contains.
unfoldable pub soft_404_match : Bytes → Bytes → List Bytes → List DetectedIssue
soft_404_match title body [] = []
soft_404_match title body (pattern ∷ patterns) =
    let later = soft_404_match title body patterns in
    if contains title pattern
    then soft_404_signal (codes "title") pattern ∷ []
    else if contains body pattern
    then soft_404_signal (codes "body") pattern ∷ []
    else later

unfoldable pub soft_404_issues : PageContext → List DetectedIssue
soft_404_issues ctx =
    let found = soft_404_match (to_lower ctx.title) (to_lower ctx.text_content) soft_404_patterns in
    if ctx.status_code == 200 && ltb ctx.word_count 100 then found else []
