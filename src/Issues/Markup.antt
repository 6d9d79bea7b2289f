-- ===== src/Issues/Markup.antt =====
-- The detectors of DetectPageLocalIssues (internal/issues/pagelocal.go) on content, performance,
-- robots directives, the head, headings, canonicals, images and links.
use seo_crawler_mcp.Prelude.{
  ℕ, ◌+◌, Bool, not, ◌&&◌, List, [], ◌∷◌, ◌++◌, Bytes, codes, ltb, ◌==◌, length, bytes_eq, is_empty,
  has_prefix, to_lower, trim_space, if◌then◌else◌,
}
use seo_crawler_mcp.Issues.{
  DetectedIssue, new_issue, raise_if, gather, number, text, texts, DiscoveredImage, PageContext,
  Thresholds,
}
use seo_crawler_mcp.Issues.IssueTypes.{
  IssueType, warning, info, thin_content, missing_alt_attribute, empty_alt_attribute, mixed_content,
  very_slow_response, slow_response, deep_page, robots_meta_header_mismatch,
  js_suspect_not_rendered, title_outside_head, meta_robots_outside_head, title_same_as_h1,
  multiple_title_tags, multiple_meta_descriptions, meta_description_outside_head, h1_too_long,
  h1_non_sequential, h1_alt_text_only, missing_h2, h2_non_sequential, h2_too_long,
  multiple_canonicals, canonical_is_relative, canonical_outside_head, alt_text_too_long,
  missing_image_size_attributes, non_descriptive_anchor_text, internal_nofollow_outlink,
}
use seo_crawler_mcp.Issues.Texts.{rune_count, parse_robots_directives, directives_match}

unfoldable pub content_issues : PageContext → Thresholds → List DetectedIssue
content_issues ctx t =
    raise_if (ltb ctx.word_count t.thin_content_threshold) (
      new_issue thin_content warning (
        (codes "wordCount", number ctx.word_count)
        ∷ (codes "threshold", number t.thin_content_threshold)
        ∷ []))
    ++ raise_if (ltb 0 ctx.images_without_alt) (
        new_issue missing_alt_attribute warning
          ((codes "count", number ctx.images_without_alt) ∷ []))
    ++ raise_if (ltb 0 ctx.images_with_empty_alt) (
        new_issue empty_alt_attribute info ((codes "count", number ctx.images_with_empty_alt) ∷ []))
    ++ raise_if ctx.mixed_content (new_issue mixed_content warning [])

unfoldable pub performance_issues : PageContext → Thresholds → ℕ → List DetectedIssue
performance_issues ctx t depth =
    raise_if (ltb 10000 ctx.ttfb_ms)
      (new_issue very_slow_response warning ((codes "ttfbMs", number ctx.ttfb_ms) ∷ []))
    ++ raise_if (ltb 3000 ctx.ttfb_ms)
        (new_issue slow_response info ((codes "ttfbMs", number ctx.ttfb_ms) ∷ []))
    ++ raise_if (ltb t.deep_page_threshold depth) (
        new_issue deep_page info
          ((codes "depth", number depth) ∷ (codes "threshold", number t.deep_page_threshold) ∷ []))

unfoldable pub robots_mismatch : PageContext → Bool
robots_mismatch ctx =
    not (is_empty ctx.meta_robots)
    && not (is_empty ctx.x_robots_tag)
    && not (
        directives_match (parse_robots_directives ctx.meta_robots)
          (parse_robots_directives ctx.x_robots_tag))

unfoldable pub robots_issues : PageContext → List DetectedIssue
robots_issues ctx = raise_if (robots_mismatch ctx) (
    new_issue robots_meta_header_mismatch warning (
      (codes "metaRobots", text ctx.meta_robots)
      ∷ (codes "xRobotsTag", text ctx.x_robots_tag)
      ∷ []))

unfoldable pub head_issues : PageContext → List DetectedIssue
head_issues ctx =
    raise_if ctx.js_suspect (new_issue js_suspect_not_rendered info [])
    ++ raise_if ctx.title_outside_head (new_issue title_outside_head warning [])
    ++ raise_if ctx.meta_robots_outside_head (new_issue meta_robots_outside_head warning [])

-- `strings.EqualFold` of the trimmed texts, for ASCII letters.
unfoldable pub title_repeats_h1 : Bytes → List Bytes → List DetectedIssue
title_repeats_h1 title [] = []
title_repeats_h1 title (h1 ∷ h1s) =
    raise_if
      (not (is_empty title) && bytes_eq (to_lower (trim_space title)) (to_lower (trim_space h1)))
      (new_issue title_same_as_h1 warning
        ((codes "title", text title) ∷ (codes "h1", text h1) ∷ []))

unfoldable pub meta_issues : PageContext → List DetectedIssue
meta_issues ctx =
    title_repeats_h1 ctx.title ctx.h1s
    ++ raise_if (ltb 1 ctx.title_count)
        (new_issue multiple_title_tags warning ((codes "count", number ctx.title_count) ∷ []))
    ++ raise_if (ltb 1 ctx.description_count) (
        new_issue multiple_meta_descriptions warning
          ((codes "count", number ctx.description_count) ∷ []))
    ++ raise_if ctx.meta_description_outside_head
        (new_issue meta_description_outside_head warning [])

unfoldable pub heading_too_long : IssueType → Bytes → Bytes → List DetectedIssue
heading_too_long issue_type key heading = raise_if (ltb 70 (rune_count heading)) (
    new_issue issue_type info
      ((codes "length", number (rune_count heading)) ∷ (key, text heading) ∷ []))

unfoldable pub h1_issues : PageContext → List DetectedIssue
h1_issues ctx =
    gather (heading_too_long h1_too_long (codes "h1")) ctx.h1s
    ++ raise_if (ltb 1 ctx.first_heading_level) (
        new_issue h1_non_sequential warning
          ((codes "firstHeadingLevel", number ctx.first_heading_level) ∷ []))
    ++ gather (λ alt. new_issue h1_alt_text_only warning ((codes "alt", text alt) ∷ []) ∷ [])
        ctx.h1_alt_text_only

unfoldable pub h2_issues : PageContext → List DetectedIssue
h2_issues ctx =
    raise_if (length ctx.h2s == 0) (new_issue missing_h2 info [])
    ++ (if ltb 0 (length ctx.h2s) && ctx.h1_count == 0
        then new_issue h2_non_sequential warning [] ∷ []
        else raise_if (ltb 0 (length ctx.h2s) && ltb 1 ctx.first_heading_level)
            (new_issue h2_non_sequential warning []))
    ++ gather (heading_too_long h2_too_long (codes "h2")) ctx.h2s

unfoldable pub canonical_issues : PageContext → List DetectedIssue
canonical_issues ctx =
    raise_if (ltb 1 ctx.canonical_count)
      (new_issue multiple_canonicals warning ((codes "count", number ctx.canonical_count) ∷ []))
    ++ raise_if
        (not (is_empty ctx.canonical_raw)
          && not (has_prefix (to_lower ctx.canonical_raw) (codes "http")))
        (new_issue canonical_is_relative warning ((codes "canonical", text ctx.canonical_raw) ∷ []))
    ++ raise_if ctx.canonical_outside_head (new_issue canonical_outside_head warning [])

-- The loop over the images: how many alternative texts are too long, and the longest of these.
unfoldable pub long_alts : ℕ → ℕ → List DiscoveredImage → ℕ × ℕ
long_alts count longest [] = (count, longest)
long_alts count longest (img ∷ images) =
    let l = length img.alt in
    let kept = long_alts count longest images in
    let counted = long_alts (count + 1) (if ltb longest l then l else longest) images in
    if ltb 100 l then counted else kept

unfoldable pub missing_sizes : ℕ → List DiscoveredImage → ℕ
missing_sizes count [] = count
missing_sizes count (img ∷ images) =
    let kept = missing_sizes count images in
    let counted = missing_sizes (count + 1) images in
    if not img.has_width && not img.has_height then counted else kept

unfoldable pub image_issues : PageContext → List DetectedIssue
image_issues ctx =
    let (long_alt_count, max_len) = long_alts 0 0 ctx.images in
    let missing_size_count = missing_sizes 0 ctx.images in
    raise_if (ltb 0 long_alt_count) (
      new_issue alt_text_too_long warning
        ((codes "count", number long_alt_count) ∷ (codes "maxLength", number max_len) ∷ []))
    ++ raise_if (ltb 0 missing_size_count) (
        new_issue missing_image_size_attributes info
          ((codes "count", number missing_size_count) ∷ []))

unfoldable pub link_issues : PageContext → List DetectedIssue
link_issues ctx =
    raise_if (ltb 0 ctx.non_descriptive_anchor_count) (
      new_issue non_descriptive_anchor_text warning (
        (codes "count", number ctx.non_descriptive_anchor_count)
        ∷ (codes "examples", texts ctx.non_descriptive_anchor_examples)
        ∷ []))
    ++ raise_if (ltb 0 ctx.internal_nofollow_count) (
        new_issue internal_nofollow_outlink warning
          ((codes "count", number ctx.internal_nofollow_count) ∷ []))
