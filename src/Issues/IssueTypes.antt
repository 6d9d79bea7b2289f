-- ===== src/Issues/IssueTypes.antt =====
-- The names of the issues that internal/issues/pagelocal.go raises, and how severe they are.
pub data Severity : Type 0 where
  error warning info : Severity

pub data IssueType : Type 0 where
  status_4xx status_5xx redirect_chain redirect_loop redirect_hops_exceeded : IssueType
  missing_title title_too_long title_too_short : IssueType
  missing_description description_too_long description_too_short : IssueType
  missing_canonical missing_favicon missing_h1 multiple_h1 : IssueType
  missing_og_title og_title_too_long missing_og_description og_description_too_long : IssueType
  missing_og_image missing_og_url og_url_canonical_mismatch missing_og_type : IssueType
  missing_twitter_card invalid_twitter_card_type missing_twitter_title missing_twitter_image :
      IssueType
  missing_structured_data malformed_structured_data : IssueType
  invalid_structured_data incomplete_structured_data : IssueType
  thin_content missing_alt_attribute empty_alt_attribute mixed_content : IssueType
  very_slow_response slow_response deep_page robots_meta_header_mismatch : IssueType
  js_suspect_not_rendered title_outside_head meta_robots_outside_head : IssueType
  title_same_as_h1 multiple_title_tags multiple_meta_descriptions : IssueType
  meta_description_outside_head h1_too_long h1_non_sequential h1_alt_text_only : IssueType
  missing_h2 h2_non_sequential h2_too_long : IssueType
  multiple_canonicals canonical_is_relative canonical_outside_head : IssueType
  alt_text_too_long missing_image_size_attributes : IssueType
  non_descriptive_anchor_text internal_nofollow_outlink : IssueType
  url_uppercase url_underscores url_contains_space url_has_parameters : IssueType
  url_too_long url_multiple_slashes url_repetitive_path : IssueType
  missing_hsts_header missing_x_content_type_options missing_x_frame_options : IssueType
  missing_content_security_policy missing_referrer_policy : IssueType
  unsafe_cross_origin_links form_on_http protocol_relative_urls : IssueType
  hreflang_missing_self hreflang_missing_x_default hreflang_invalid_language_code : IssueType
  hreflang_outside_head invalid_html_in_head multiple_head_tags multiple_body_tags : IssueType
  html_too_large lorem_ipsum_detected soft_404 : IssueType
