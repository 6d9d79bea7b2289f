-- ===== src/Issues/Basics.antt =====
-- The first detectors of DetectPageLocalIssues (internal/issues/pagelocal.go): the response, title and
-- description, canonical, headings, social cards, structured data.
use seo_crawler_mcp.Prelude.{
  ℕ, true, not, ◌&&◌, List, [], ◌∷◌, ◌++◌, Bytes, codes, ltb, leb, ◌==◌, length, bytes_eq,
  bytes_mem, is_empty, if◌then◌else◌,
}
use seo_crawler_mcp.Issues.{
  DetectedIssue, new_issue, raise_if, gather, number, text, texts, flag, ValidationResult,
  PageContext, Thresholds, Tools,
}
use seo_crawler_mcp.Issues.IssueTypes.{
  IssueType, error, warning, info, status_4xx, status_5xx, redirect_chain, redirect_loop,
  redirect_hops_exceeded, missing_title, title_too_long, title_too_short, missing_description,
  description_too_long, description_too_short, missing_canonical, missing_favicon, missing_h1,
  multiple_h1, missing_og_title, og_title_too_long, missing_og_description, og_description_too_long,
  missing_og_image, missing_og_url, og_url_canonical_mismatch, missing_og_type,
  missing_twitter_card, invalid_twitter_card_type, missing_twitter_title, missing_twitter_image,
  missing_structured_data, malformed_structured_data, invalid_structured_data,
  incomplete_structured_data,
}

unfoldable pub status_issues : PageContext → List DetectedIssue
status_issues ctx =
    raise_if (leb 400 ctx.status_code && leb ctx.status_code 499)
      (new_issue status_4xx error ((codes "statusCode", number ctx.status_code) ∷ []))
    ++ raise_if (leb 500 ctx.status_code && leb ctx.status_code 599)
        (new_issue status_5xx error ((codes "statusCode", number ctx.status_code) ∷ []))
    ++ raise_if (ltb 1 ctx.redirect_hop_count)
        (new_issue redirect_chain warning ((codes "hopCount", number ctx.redirect_hop_count) ∷ []))

unfoldable pub redirect_issues : PageContext → List DetectedIssue
redirect_issues ctx =
    raise_if ctx.redirect_loop_detected
      (new_issue redirect_loop error ((codes "detected", flag true) ∷ []))
    ++ raise_if ctx.redirect_hops_exceeded (
        new_issue redirect_hops_exceeded error
          ((codes "hopCount", number ctx.redirect_hop_count) ∷ []))

unfoldable pub title_issues : PageContext → Thresholds → List DetectedIssue
title_issues ctx t =
    raise_if (is_empty ctx.title) (new_issue missing_title error [])
    ++ raise_if (ltb t.title_max_length ctx.title_length) (
        new_issue title_too_long warning (
          (codes "length", number ctx.title_length)
          ∷ (codes "maxLength", number t.title_max_length)
          ∷ (codes "title", text ctx.title)
          ∷ []))
    ++ raise_if (ltb 0 ctx.title_length && ltb ctx.title_length t.title_min_length) (
        new_issue title_too_short warning (
          (codes "length", number ctx.title_length)
          ∷ (codes "minLength", number t.title_min_length)
          ∷ (codes "title", text ctx.title)
          ∷ []))

unfoldable pub description_issues : PageContext → Thresholds → List DetectedIssue
description_issues ctx t =
    raise_if (is_empty ctx.meta_description) (new_issue missing_description error [])
    ++ raise_if (ltb t.description_max_length ctx.description_length) (
        new_issue description_too_long warning (
          (codes "length", number ctx.description_length)
          ∷ (codes "maxLength", number t.description_max_length)
          ∷ []))
    ++ raise_if
        (ltb 0 ctx.description_length && ltb ctx.description_length t.description_min_length)
        (new_issue description_too_short warning (
          (codes "length", number ctx.description_length)
          ∷ (codes "minLength", number t.description_min_length)
          ∷ []))

unfoldable pub heading_issues : PageContext → List DetectedIssue
heading_issues ctx =
    raise_if (bytes_eq ctx.canonical_type (codes "absent")) (new_issue missing_canonical warning [])
    ++ raise_if (not ctx.has_favicon) (new_issue missing_favicon info [])
    ++ raise_if (ctx.h1_count == 0) (new_issue missing_h1 warning [])
    ++ raise_if (ltb 1 ctx.h1_count)
        (new_issue multiple_h1 warning ((codes "count", number ctx.h1_count) ∷ []))

-- A field that is missing, or else too long.
unfoldable pub length_issues : IssueType → IssueType → ℕ → Bytes → List DetectedIssue
length_issues missing too_long limit s =
    if is_empty s
    then new_issue missing info [] ∷ []
    else raise_if (ltb limit (length s)) (
        new_issue too_long info
          ((codes "length", number (length s)) ∷ (codes "limit", number limit) ∷ []))

unfoldable pub open_graph_issues : PageContext → List DetectedIssue
open_graph_issues ctx =
    length_issues missing_og_title og_title_too_long 90 ctx.og_title
    ++ length_issues missing_og_description og_description_too_long 200 ctx.og_description
    ++ raise_if (is_empty ctx.og_image) (new_issue missing_og_image info [])
    ++ (if is_empty ctx.og_url
        then new_issue missing_og_url info [] ∷ []
        else raise_if
            (not (is_empty ctx.canonical_raw) && not (bytes_eq ctx.og_url ctx.canonical_raw))
            (new_issue og_url_canonical_mismatch warning (
              (codes "ogUrl", text ctx.og_url) ∷ (codes "canonical", text ctx.canonical_raw) ∷ [])))
    ++ raise_if (is_empty ctx.og_type) (new_issue missing_og_type info [])

unfoldable pub valid_cards : List Bytes
valid_cards = codes "summary" ∷ codes "summary_large_image" ∷ codes "app" ∷ codes "player" ∷ []

unfoldable pub twitter_issues : PageContext → List DetectedIssue
twitter_issues ctx =
    (if is_empty ctx.twitter_card
      then new_issue missing_twitter_card info [] ∷ []
      else raise_if (not (bytes_mem ctx.twitter_card valid_cards)) (
          new_issue invalid_twitter_card_type warning (
            (codes "value", text ctx.twitter_card)
            ∷ (codes "valid", text (codes "summary, summary_large_image, app, player"))
            ∷ [])))
    ++ raise_if (is_empty ctx.twitter_title && is_empty ctx.og_title)
        (new_issue missing_twitter_title info [])
    ++ raise_if (is_empty ctx.twitter_image && is_empty ctx.og_image)
        (new_issue missing_twitter_image info [])

unfoldable pub validation_issues : ValidationResult → List DetectedIssue
validation_issues r =
    raise_if (ltb 0 (length r.missing_required)) (
      new_issue invalid_structured_data warning (
        (codes "type", text r.schema_type)
        ∷ (codes "missingRequired", texts r.missing_required)
        ∷ (codes "scope", text (codes "required"))
        ∷ (codes "source", text r.source)
        ∷ (codes "googleDocUrl", text r.google_doc_url)
        ∷ []))
    ++ raise_if (ltb 0 (length r.missing_recommended) && not r.nested) (
        new_issue incomplete_structured_data info (
          (codes "type", text r.schema_type)
          ∷ (codes "missingRecommended", texts r.missing_recommended)
          ∷ (codes "scope", text (codes "recommended"))
          ∷ []))

unfoldable pub structured_data_issues : Tools → PageContext → List DetectedIssue
structured_data_issues tools ctx =
    raise_if (ctx.jsonld_blocks == 0) (new_issue missing_structured_data info [])
    ++ raise_if ctx.malformed_jsonld (new_issue malformed_structured_data warning [])
    ++ (if not (is_empty ctx.jsonld_raw) && not (bytes_eq ctx.jsonld_raw (codes "[]"))
        then gather validation_issues (tools.validate_jsonld ctx.jsonld_raw)
        else [])
