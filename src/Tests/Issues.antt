-- ===== src/Tests/Issues.antt =====
-- Runs of internal/issues, and its theorems at inputs.
use seo_crawler_mcp.Prelude.{
  arith, true, false, none, some, List, [], ◌∷◌, codes, bytes_eq, bytes_mem, to_lower,
  to_lower_byte, is_space, trim_left, trim_right, trim_space, index, index_byte, has_prefix,
  contains, any, map, ◌≡◌, ◌↔◌, refl,
}
use seo_crawler_mcp.Prelude.Split.{split, cons_head}
use seo_crawler_mcp.UrlUtil.Normalize.{Url}
use seo_crawler_mcp.Issues.{
  PageContext, default_thresholds, Tools, new_issue, gather, DetectedIssue,
}
use seo_crawler_mcp.Issues.IssueTypes.{
  title_too_short, description_too_short, missing_og_title, missing_og_description,
  missing_og_image, missing_og_url, missing_og_type, missing_twitter_card, missing_twitter_title,
  missing_twitter_image, missing_structured_data, missing_h2, IssueType,
}
use seo_crawler_mcp.Issues.Texts.{
  is_upper, has_uppercase, repeated_after, find_repetitive_segment, non_descriptive_anchors,
  is_non_descriptive_anchor, rune_count, add_directive, collect_directives, parse_robots_directives,
  directives_match, lookup_header, search_header, get_header,
}
use seo_crawler_mcp.Issues.Texts.Hreflang.{
  iso_639_1, to_upper_byte, to_upper, split_code, is_region, is_valid_hreflang_code,
}
use seo_crawler_mcp.Issues.Texts.Hreflang.Codes.{IsCode, is_valid_hreflang_code_iff}
use seo_crawler_mcp.Issues.Urls.{has_space, parsed_url_issues, detect_url_issues}
use seo_crawler_mcp.Issues.Basics.{
  status_issues, redirect_issues, title_issues, description_issues, heading_issues,
  open_graph_issues, twitter_issues, valid_cards, structured_data_issues, length_issues,
  validation_issues,
}
use seo_crawler_mcp.Issues.Markup.{
  content_issues, performance_issues, robots_mismatch, robots_issues, head_issues, meta_issues,
  h1_issues, h2_issues, canonical_issues, image_issues, link_issues, title_repeats_h1,
  heading_too_long, long_alts, missing_sizes,
}
use seo_crawler_mcp.Issues.Content.{
  security_issues, outlink_issues, hreflang_issues, html_issues, filler_issues, soft_404_issues,
  header_issues, code_issues, soft_404_patterns, soft_404_match, soft_404_signal, is_self,
  is_x_default, is_https,
}
use seo_crawler_mcp.Issues.Detect.{detect_page_local_issues}
use seo_crawler_mcp.Issues.Detect.Severe.{is_error, IsBroken, detect-errors_iff}

detecting : Unit {0}
unfolding bytes_eq bytes_mem to_lower to_lower_byte is_space trim_left trim_right trim_space index
    index_byte has_prefix contains split cons_head default_thresholds new_issue gather is_upper
    has_uppercase repeated_after find_repetitive_segment non_descriptive_anchors
    is_non_descriptive_anchor rune_count add_directive collect_directives parse_robots_directives
    directives_match lookup_header search_header get_header iso_639_1 to_upper_byte to_upper
    split_code is_region is_valid_hreflang_code has_space parsed_url_issues detect_url_issues
    status_issues redirect_issues title_issues description_issues heading_issues open_graph_issues
    twitter_issues valid_cards structured_data_issues length_issues validation_issues content_issues
    performance_issues robots_mismatch robots_issues head_issues meta_issues h1_issues h2_issues
    canonical_issues image_issues link_issues title_repeats_h1 heading_too_long long_alts
    missing_sizes security_issues outlink_issues hreflang_issues html_issues filler_issues
    soft_404_issues header_issues code_issues soft_404_patterns soft_404_match soft_404_signal
    is_self is_x_default is_https detect_page_local_issues
detecting = tt

abbrev page_address : Url
page_address = record {
  scheme = codes "http";
  host = codes "a.test";
  hostname = codes "a.test";
  port = [];
  raw_path = [];
  path = codes "/";
  escaped_path = codes "/";
  raw_query = [];
  has_user = false;
}

abbrev tools : Tools
tools = record {
  parse = λ raw. some page_address;
  query_keys = λ query. [];
  print = λ u. u.path;
  validate_jsonld = λ raw. [];
}

abbrev plain_page : PageContext
plain_page = record {
  status_code = 200;
  redirect_hop_count = 0;
  redirect_loop_detected = false;
  redirect_hops_exceeded = false;
  ttfb_ms = 0;
  title = codes "Widgets";
  title_length = 7;
  meta_description = codes "All widgets";
  description_length = 11;
  meta_robots = [];
  x_robots_tag = [];
  canonical_type = codes "self";
  has_favicon = true;
  h1_count = 1;
  og_title = [];
  og_description = [];
  og_image = [];
  og_url = [];
  og_type = [];
  twitter_card = [];
  twitter_title = [];
  twitter_image = [];
  jsonld_blocks = 0;
  malformed_jsonld = false;
  jsonld_raw = [];
  word_count = 300;
  images_without_alt = 0;
  images_with_empty_alt = 0;
  mixed_content = false;
  js_suspect = false;
  title_outside_head = false;
  meta_robots_outside_head = false;
  h1s = codes "Widgets here" ∷ [];
  h2s = [];
  title_count = 0;
  description_count = 0;
  meta_description_outside_head = false;
  first_heading_level = 0;
  h1_alt_text_only = [];
  canonical_count = 0;
  canonical_raw = [];
  canonical_outside_head = false;
  images = [];
  non_descriptive_anchor_count = 0;
  non_descriptive_anchor_examples = [];
  internal_nofollow_count = 0;
  page_url = codes "http://a.test/";
  response_headers = none;
  hreflangs = [];
  form_insecure_actions = [];
  protocol_relative_count = 0;
  hreflang_outside_head = false;
  invalid_html_in_head = [];
  head_tag_count = 0;
  body_tag_count = 0;
  body_size = 0;
  text_content = [];
  unsafe_cross_origin_count = 0;
  unsafe_cross_origin_examples = [];
}

abbrev untitled_page : PageContext
untitled_page = record plain_page { title = []; title_length = 0; status_code = 404 }

types_of : List DetectedIssue → List IssueType
types_of = map λ issue. issue.issue_type

detect_runs :
    (types_of (detect_page_local_issues tools plain_page default_thresholds 1)
      ≡ title_too_short ∷ description_too_short ∷ missing_og_title ∷ missing_og_description
        ∷ missing_og_image ∷ missing_og_url ∷ missing_og_type ∷ missing_twitter_card
        ∷ missing_twitter_title ∷ missing_twitter_image ∷ missing_structured_data ∷ missing_h2 ∷ [])
    × (any is_error (detect_page_local_issues tools plain_page default_thresholds 1) ≡ false)
    × (any is_error (detect_page_local_issues tools untitled_page default_thresholds 1) ≡ true)
unfolding detecting types_of
detect_runs = (refl, refl, refl)

text_runs :
    (find_repetitive_segment (codes "/a/b/b/") ≡ codes "b")
    × (is_valid_hreflang_code (codes "pt-br") ≡ true)
    × (is_valid_hreflang_code (codes "pt-bra") ≡ false)
    × (is_valid_hreflang_code (codes "xx") ≡ false)
    × (is_non_descriptive_anchor (codes " Click Here ") ≡ true)
    × (get_header ((codes "x-frame-options", codes "DENY" ∷ []) ∷ []) (codes "X-Frame-Options")
        ≡ codes "DENY")
    × (directives_match
          (parse_robots_directives (codes "NoIndex, follow"))
          (parse_robots_directives (codes "follow,noindex,,follow"))
        ≡ true)
unfolding detecting
text_runs = (refl, refl, refl, refl, refl, refl, refl)

detect-errors_iff_example :
    (any is_error (detect_page_local_issues tools untitled_page default_thresholds 1) ≡ true)
    ↔ IsBroken untitled_page
detect-errors_iff_example = detect-errors_iff tools untitled_page default_thresholds 1

is_valid_hreflang_code_iff_example :
    (is_valid_hreflang_code (codes "pt-br") ≡ true) ↔ IsCode (codes "pt-br")
is_valid_hreflang_code_iff_example = is_valid_hreflang_code_iff (codes "pt-br") (omega arith)
