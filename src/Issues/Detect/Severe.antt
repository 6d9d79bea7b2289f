-- ===== src/Issues/Detect/Severe.antt =====
-- Which pages have an error among their issues.
use seo_crawler_mcp.Prelude.{
  none, some, ℕ, Bool, true, false, ◌&&◌, ◌||◌, List, [], ◌∷◌, ◌++◌, any, any-append, leb, is_empty,
  is_empty, if◌then◌else◌, ◌≡◌, ◌↔◌, ◌⊎◌, refl, arith, ◌≤◌, Bytes,
}
use seo_crawler_mcp.Issues.{
  DetectedIssue, new_issue, raise_if, gather, PageContext, Thresholds, Tools, Detail,
  ValidationResult, HreflangEntry,
}
use seo_crawler_mcp.Issues.IssueTypes.{error, warning, info, IssueType}
use seo_crawler_mcp.Issues.Urls.{detect_url_issues, parsed_url_issues}
use seo_crawler_mcp.Issues.Basics.{
  status_issues, redirect_issues, title_issues, description_issues, heading_issues,
  open_graph_issues, twitter_issues, structured_data_issues, length_issues, validation_issues,
}
use seo_crawler_mcp.Issues.Markup.{
  content_issues, performance_issues, robots_issues, head_issues, meta_issues, h1_issues, h2_issues,
  canonical_issues, image_issues, link_issues, title_repeats_h1, heading_too_long,
}
use seo_crawler_mcp.Issues.Content.{
  security_issues, outlink_issues, hreflang_issues, html_issues, filler_issues, soft_404_issues,
  header_issues, code_issues, soft_404_match, soft_404_signal, is_https,
}
use seo_crawler_mcp.Issues.Detect.{detect_page_local_issues}

abbrev pub is_error : DetectedIssue → Bool
is_error issue = elim issue.severity [ error ↦ true | _ ↦ false ]

-- No issue of the list is an error. The rules below follow the way in which the detectors build lists.
HasNoError : List DetectedIssue → Type 0
HasNoError issues = any is_error issues ≡ false

clean_nil : HasNoError []
unfolding HasNoError
clean_nil = refl

clean-append : (xs ys : List DetectedIssue) → HasNoError xs → HasNoError ys → HasNoError (xs ++ ys)
unfolding HasNoError
clean-append xs ys in_xs in_ys = ground (arith, any-append is_error xs ys, in_xs, in_ys)

warning_clean :
    (issue_type : IssueType) (details : List (Bytes × Detail))
    → HasNoError (new_issue issue_type warning details ∷ [])
unfolding HasNoError new_issue
warning_clean issue_type details = refl

info_clean :
    (issue_type : IssueType) (details : List (Bytes × Detail))
    → HasNoError (new_issue issue_type info details ∷ [])
unfolding HasNoError new_issue
info_clean issue_type details = refl

clean-raise_if :
    (b : Bool) (issue : DetectedIssue) → HasNoError (issue ∷ []) → HasNoError (raise_if b issue)
clean-raise_if true issue clean = clean
clean-raise_if false issue clean = clean_nil

clean_if :
    (b : Bool) (xs ys : List DetectedIssue)
    → HasNoError xs
    → HasNoError ys
    → HasNoError (if b then xs else ys)
clean_if true xs ys in_xs in_ys = in_xs
clean_if false xs ys in_xs in_ys = in_ys

clean-gather :
    {A : Type 0} (f : A → List DetectedIssue) (xs : List A)
    → ((x : A) → HasNoError (f x))
    → HasNoError (gather f xs)
unfolding gather
clean-gather f [] clean = clean_nil
clean-gather f (x ∷ xs) clean = clean-append (f x) (gather f xs) (clean x) (clean-gather f xs clean)

ruleset clean =
    (clean_nil, clean-append, warning_clean, info_clean, clean-raise_if, clean_if, clean-gather)

heading_issues-HasNoError : (ctx : PageContext) → HasNoError (heading_issues ctx)
unfolding heading_issues
heading_issues-HasNoError ctx = search (clean) depth 12

length_issues-HasNoError :
    (missing too_long : IssueType) (limit : ℕ) (s : Bytes)
    → HasNoError (length_issues missing too_long limit s)
unfolding length_issues
length_issues-HasNoError missing too_long limit s = search (clean) depth 12

open_graph_issues-HasNoError : (ctx : PageContext) → HasNoError (open_graph_issues ctx)
unfolding open_graph_issues
open_graph_issues-HasNoError ctx = search (clean, length_issues-HasNoError) depth 12

twitter_issues-HasNoError : (ctx : PageContext) → HasNoError (twitter_issues ctx)
unfolding twitter_issues
twitter_issues-HasNoError ctx = search (clean) depth 12

validation_issues-HasNoError : (r : ValidationResult) → HasNoError (validation_issues r)
unfolding validation_issues
validation_issues-HasNoError r = search (clean) depth 12

structured_data_issues-HasNoError :
    (tools : Tools) (ctx : PageContext) → HasNoError (structured_data_issues tools ctx)
unfolding structured_data_issues
structured_data_issues-HasNoError tools ctx = search (clean, validation_issues-HasNoError) depth 12

content_issues-HasNoError : (ctx : PageContext) (t : Thresholds) → HasNoError (content_issues ctx t)
unfolding content_issues
content_issues-HasNoError ctx t = search (clean) depth 12

performance_issues-HasNoError :
    (ctx : PageContext) (t : Thresholds) (depth : ℕ) → HasNoError (performance_issues ctx t depth)
unfolding performance_issues
performance_issues-HasNoError ctx t depth = search (clean) depth 12

robots_issues-HasNoError : (ctx : PageContext) → HasNoError (robots_issues ctx)
unfolding robots_issues
robots_issues-HasNoError ctx = search (clean) depth 12

head_issues-HasNoError : (ctx : PageContext) → HasNoError (head_issues ctx)
unfolding head_issues
head_issues-HasNoError ctx = search (clean) depth 12

title_repeats_h1-HasNoError :
    (title : Bytes) (h1s : List Bytes) → HasNoError (title_repeats_h1 title h1s)
unfolding title_repeats_h1
title_repeats_h1-HasNoError title [] = clean_nil
title_repeats_h1-HasNoError title (h1 ∷ h1s) = search (clean) depth 12

meta_issues-HasNoError : (ctx : PageContext) → HasNoError (meta_issues ctx)
unfolding meta_issues
meta_issues-HasNoError ctx = search (clean, title_repeats_h1-HasNoError) depth 12

heading_too_long-HasNoError :
    (issue_type : IssueType) (key heading : Bytes)
    → HasNoError (heading_too_long issue_type key heading)
unfolding heading_too_long
heading_too_long-HasNoError issue_type key heading = search (clean) depth 12

h1_issues-HasNoError : (ctx : PageContext) → HasNoError (h1_issues ctx)
unfolding h1_issues
h1_issues-HasNoError ctx = search (clean, heading_too_long-HasNoError) depth 12

h2_issues-HasNoError : (ctx : PageContext) → HasNoError (h2_issues ctx)
unfolding h2_issues
h2_issues-HasNoError ctx = search (clean, heading_too_long-HasNoError) depth 12

canonical_issues-HasNoError : (ctx : PageContext) → HasNoError (canonical_issues ctx)
unfolding canonical_issues
canonical_issues-HasNoError ctx = search (clean) depth 12

image_issues-HasNoError : (ctx : PageContext) → HasNoError (image_issues ctx)
unfolding image_issues
image_issues-HasNoError ctx = search (clean) depth 12

link_issues-HasNoError : (ctx : PageContext) → HasNoError (link_issues ctx)
unfolding link_issues
link_issues-HasNoError ctx = search (clean) depth 12

detect_url_issues-HasNoError :
    (tools : Tools) (raw : Bytes) → HasNoError (detect_url_issues tools raw)
unfolding detect_url_issues parsed_url_issues
detect_url_issues-HasNoError tools [] = clean_nil
detect_url_issues-HasNoError tools (c ∷ raw) =
    elim (tools.parse (c ∷ raw))
      as (λ parsed.
        HasNoError (elim parsed [ none ↦ [] | some u ↦ parsed_url_issues tools (c ∷ raw) u ])) [
          | none ↦ clean_nil
          | some u ↦ search (clean) depth 12
        ]

header_issues-HasNoError :
    (https : Bool) (headers : List (Bytes × List Bytes)) → HasNoError (header_issues https headers)
unfolding header_issues
header_issues-HasNoError https headers = search (clean) depth 12

security_issues-HasNoError :
    (tools : Tools) (ctx : PageContext) → HasNoError (security_issues tools ctx)
unfolding security_issues
security_issues-HasNoError tools ctx =
    elim ctx.response_headers
      as (λ found. HasNoError (elim found [
        | none ↦ []
        | some headers ↦ header_issues (is_https tools ctx.page_url) headers
      ])) [
        | none ↦ clean_nil
        | some headers ↦ header_issues-HasNoError (is_https tools ctx.page_url) headers
      ]

outlink_issues-HasNoError : (ctx : PageContext) → HasNoError (outlink_issues ctx)
unfolding outlink_issues
outlink_issues-HasNoError ctx = search (clean) depth 12

code_issues-HasNoError : (entry : HreflangEntry) → HasNoError (code_issues entry)
unfolding code_issues
code_issues-HasNoError entry = search (clean) depth 12

hreflang_issues-HasNoError :
    (tools : Tools) (ctx : PageContext) → HasNoError (hreflang_issues tools ctx)
unfolding hreflang_issues
hreflang_issues-HasNoError tools ctx = search (clean, code_issues-HasNoError) depth 12

html_issues-HasNoError : (ctx : PageContext) → HasNoError (html_issues ctx)
unfolding html_issues
html_issues-HasNoError ctx = search (clean) depth 12

filler_issues-HasNoError : (ctx : PageContext) → HasNoError (filler_issues ctx)
unfolding filler_issues
filler_issues-HasNoError ctx = search (clean) depth 12

soft_404_match-HasNoError :
    (title body : Bytes) (patterns : List Bytes) → HasNoError (soft_404_match title body patterns)
unfolding soft_404_match soft_404_signal
soft_404_match-HasNoError title body [] = clean_nil
soft_404_match-HasNoError title body (pattern ∷ patterns) =
    let later = soft_404_match-HasNoError title body patterns in search (clean) depth 12

soft_404_issues-HasNoError : (ctx : PageContext) → HasNoError (soft_404_issues ctx)
unfolding soft_404_issues
soft_404_issues-HasNoError ctx = search (clean, soft_404_match-HasNoError) depth 12

status_issues_error :
    (ctx : PageContext)
    → any is_error (status_issues ctx) ≡ (
        (leb 400 ctx.status_code && leb ctx.status_code 499)
        || (leb 500 ctx.status_code && leb ctx.status_code 599))
unfolding status_issues new_issue
status_issues_error ctx = ground arith

redirect_issues_error :
    (ctx : PageContext)
    → any is_error (redirect_issues ctx)
      ≡ (ctx.redirect_loop_detected || ctx.redirect_hops_exceeded)
unfolding redirect_issues new_issue
redirect_issues_error ctx = ground arith

title_issues_error :
    (ctx : PageContext) (t : Thresholds) → any is_error (title_issues ctx t) ≡ is_empty ctx.title
unfolding title_issues new_issue
title_issues_error ctx t = ground arith

description_issues_error :
    (ctx : PageContext) (t : Thresholds)
    → any is_error (description_issues ctx t) ≡ is_empty ctx.meta_description
unfolding description_issues new_issue
description_issues_error ctx t = ground arith

any-append_clean :
    (xs ys : List DetectedIssue) → HasNoError ys → any is_error (xs ++ ys) ≡ any is_error xs
unfolding HasNoError
any-append_clean xs ys clean = ground (arith, any-append is_error xs ys, clean)

-- The detectors behind the four that raise errors.
abbrev rest_issues : Tools → PageContext → Thresholds → ℕ → List DetectedIssue
rest_issues tools ctx t depth =
    heading_issues ctx
    ++ open_graph_issues ctx
    ++ twitter_issues ctx
    ++ structured_data_issues tools ctx
    ++ content_issues ctx t
    ++ performance_issues ctx t depth
    ++ robots_issues ctx
    ++ head_issues ctx
    ++ meta_issues ctx
    ++ h1_issues ctx
    ++ h2_issues ctx
    ++ canonical_issues ctx
    ++ image_issues ctx
    ++ link_issues ctx
    ++ detect_url_issues tools ctx.page_url
    ++ security_issues tools ctx
    ++ outlink_issues ctx
    ++ hreflang_issues tools ctx
    ++ html_issues ctx
    ++ filler_issues ctx
    ++ soft_404_issues ctx

ruleset detectors = (
  heading_issues-HasNoError, open_graph_issues-HasNoError, twitter_issues-HasNoError,
  structured_data_issues-HasNoError, content_issues-HasNoError, performance_issues-HasNoError,
  robots_issues-HasNoError, head_issues-HasNoError, meta_issues-HasNoError, h1_issues-HasNoError,
  h2_issues-HasNoError, canonical_issues-HasNoError, image_issues-HasNoError,
  link_issues-HasNoError, detect_url_issues-HasNoError, security_issues-HasNoError,
  outlink_issues-HasNoError, hreflang_issues-HasNoError, html_issues-HasNoError,
  filler_issues-HasNoError, soft_404_issues-HasNoError,
)

rest_issues-HasNoError :
    (tools : Tools) (ctx : PageContext) (t : Thresholds) (depth : ℕ)
    → HasNoError (rest_issues tools ctx t depth)
rest_issues-HasNoError tools ctx t depth = search (clean-append, detectors) depth 30

is_empty_iff : (s : Bytes) → (is_empty s ≡ true) ↔ (s ≡ [])
is_empty_iff [] = (λ h. refl, λ h. refl)
is_empty_iff (c ∷ s) = (λ h. absurd (cc h), λ h. absurd (cc h))

-- The page is broken: an error status, a redirect loop, too many redirects, no title or no description.
abbrev pub IsBroken : PageContext → Type 0
IsBroken ctx =
    ((400 ≤ ctx.status_code) × (ctx.status_code ≤ 599))
    ⊎ ((ctx.redirect_loop_detected ≡ true)
        ⊎ ((ctx.redirect_hops_exceeded ≡ true) ⊎ ((ctx.title ≡ []) ⊎ (ctx.meta_description ≡ []))))

-- Whatever else is found on a page, there is an error among its issues exactly when its status is one
-- of 400 to 599, its redirects loop or are too many, or its title or its description is missing.
pub detect-errors_iff :
    (tools : Tools) (ctx : PageContext) (t : Thresholds) (depth : ℕ)
    → (any is_error (detect_page_local_issues tools ctx t depth) ≡ true) ↔ IsBroken ctx
unfolding detect_page_local_issues
detect-errors_iff tools ctx t depth =
    let a = status_issues ctx in
    let b = redirect_issues ctx in
    let c = title_issues ctx t in
    let d = description_issues ctx t in
    let only =
      any-append_clean (a ++ b ++ c ++ d) (rest_issues tools ctx t depth)
        (rest_issues-HasNoError tools ctx t depth) in
    ground (
      arith,
      only,
      any-append is_error (a ++ b ++ c) d,
      any-append is_error (a ++ b) c,
      any-append is_error a b,
      status_issues_error ctx,
      redirect_issues_error ctx,
      title_issues_error ctx t,
      description_issues_error ctx t,
      is_empty_iff ctx.title,
      is_empty_iff ctx.meta_description,
    )
