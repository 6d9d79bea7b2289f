-- ===== src/Issues.antt =====
-- The issues of one page (internal/issues/pagelocal.go): what is known of a page, the limits, and
-- what an issue is. Fields that no detector reads are left out. Counts, lengths, sizes and times are
-- natural numbers. The details of an issue stay the map that the source turns into JSON.
pub mod IssueTypes
pub mod Texts
pub mod Urls
pub mod Basics
pub mod Markup
pub mod Content
pub mod Detect
use seo_crawler_mcp.Prelude.{
  ℕ, Bool, true, false, Option, none, some, List, [], ◌∷◌, ◌++◌, Bytes, codes,
}
use seo_crawler_mcp.Issues.IssueTypes.{IssueType, Severity}
use seo_crawler_mcp.UrlUtil.Normalize.{Url, Parser}

-- A value of the details.
pub data Detail : Type 0 where
  number : ℕ → Detail
  text : Bytes → Detail
  texts : List Bytes → Detail
  flag : Bool → Detail

pub record DetectedIssue : Type 0 where
  pub issue_type : IssueType
  pub severity : Severity
  pub scope : Bytes
  pub details : List (Bytes × Detail)

unfoldable pub new_issue : IssueType → Severity → List (Bytes × Detail) → DetectedIssue
new_issue issue_type severity details = record {
  issue_type = issue_type;
  severity = severity;
  scope = codes "page_local";
  details = details;
}

-- An issue is appended if the test holds.
abbrev pub raise_if : Bool → DetectedIssue → List DetectedIssue
raise_if true issue = issue ∷ []
raise_if false issue = []

-- The issues of each element, in order: a loop that appends.
unfoldable pub gather : {A : Type 0} → (A → List DetectedIssue) → List A → List DetectedIssue
gather f [] = []
gather f (x ∷ xs) = f x ++ gather f xs

pub record DiscoveredImage : Type 0 where
  pub alt : Bytes
  pub has_width : Bool
  pub has_height : Bool

pub record HreflangEntry : Type 0 where
  pub lang : Bytes
  pub url : Bytes

-- What parser.ValidateJSONLD says of one object.
pub record ValidationResult : Type 0 where
  pub schema_type : Bytes
  pub missing_required : List Bytes
  pub missing_recommended : List Bytes
  pub nested : Bool
  pub source : Bytes
  pub google_doc_url : Bytes

pub record PageContext : Type 0 where
  pub status_code : ℕ
  pub redirect_hop_count : ℕ
  pub redirect_loop_detected : Bool
  pub redirect_hops_exceeded : Bool
  pub ttfb_ms : ℕ
  pub title : Bytes
  pub title_length : ℕ
  pub meta_description : Bytes
  pub description_length : ℕ
  pub meta_robots : Bytes
  pub x_robots_tag : Bytes
  pub canonical_type : Bytes
  pub has_favicon : Bool
  pub h1_count : ℕ
  pub og_title : Bytes
  pub og_description : Bytes
  pub og_image : Bytes
  pub og_url : Bytes
  pub og_type : Bytes
  pub twitter_card : Bytes
  pub twitter_title : Bytes
  pub twitter_image : Bytes
  pub jsonld_blocks : ℕ
  pub malformed_jsonld : Bool
  pub jsonld_raw : Bytes
  pub word_count : ℕ
  pub images_without_alt : ℕ
  pub images_with_empty_alt : ℕ
  pub mixed_content : Bool
  pub js_suspect : Bool
  pub title_outside_head : Bool
  pub meta_robots_outside_head : Bool
  pub h1s : List Bytes
  pub h2s : List Bytes
  pub title_count : ℕ
  pub description_count : ℕ
  pub meta_description_outside_head : Bool
  pub first_heading_level : ℕ
  pub h1_alt_text_only : List Bytes
  pub canonical_count : ℕ
  pub canonical_raw : Bytes
  pub canonical_outside_head : Bool
  pub images : List DiscoveredImage
  pub non_descriptive_anchor_count : ℕ
  pub non_descriptive_anchor_examples : List Bytes
  pub internal_nofollow_count : ℕ
  pub page_url : Bytes
  pub response_headers : Option (List (Bytes × List Bytes))
  pub hreflangs : List HreflangEntry
  pub form_insecure_actions : List Bytes
  pub protocol_relative_count : ℕ
  pub hreflang_outside_head : Bool
  pub invalid_html_in_head : List Bytes
  pub head_tag_count : ℕ
  pub body_tag_count : ℕ
  pub body_size : ℕ
  pub text_content : Bytes
  pub unsafe_cross_origin_count : ℕ
  pub unsafe_cross_origin_examples : List Bytes

pub record Thresholds : Type 0 where
  pub title_max_length : ℕ
  pub title_min_length : ℕ
  pub description_max_length : ℕ
  pub description_min_length : ℕ
  pub thin_content_threshold : ℕ
  pub deep_page_threshold : ℕ

unfoldable pub default_thresholds : Thresholds
default_thresholds = record {
  title_max_length = 60;
  title_min_length = 30;
  description_max_length = 160;
  description_min_length = 70;
  thin_content_threshold = 200;
  deep_page_threshold = 3;
}

-- What the detectors call outside their package: url.Parse, the keys of a parsed query, the text of
-- a URL, and parser.ValidateJSONLD.
pub record Tools : Type 0 where
  pub parse : Parser
  pub query_keys : Bytes → List Bytes
  pub print : Url → Bytes
  pub validate_jsonld : Bytes → List ValidationResult
