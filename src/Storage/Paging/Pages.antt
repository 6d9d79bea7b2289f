-- ===== src/Storage/Paging/Pages.antt =====
-- QueryPages, QueryIssues, QueryEdgesView and QueryResponseCodes in internal/storage/queries.go: their
-- conditions, and the pages of rows that meet them. SQLite's LIKE is an argument.
use seo_crawler_mcp.Prelude.{
  ℕ, Bool, true, false, ◌&&◌, ◌||◌, not, Option, none, some, [], ◌∷◌, ◌++◌, Bytes, codes, is_empty,
  bytes_eq, if◌then◌else◌, leb,
}
use seo_crawler_mcp.Prelude.Int.{ℤ, pos, negsuc}
use seo_crawler_mcp.Prelude.Result.{Result, ok, ◌>>=◌}
use seo_crawler_mcp.Storage.Rows.{
  UrlRow, Fetch, Page, Issue, Edge, Tables, url_row, fetch_row, url_row_of,
}
use seo_crawler_mcp.Storage.Paging.{
  QueryFilter, PagedResult, QueryError, decode_cursor, status_code_family_range,
  collect_ignored_filters, paged,
}

-- A filter that is empty lets everything pass.
unfoldable pub text_passes : Bytes → Bytes → Bool
text_passes wanted text = is_empty wanted || bytes_eq text wanted

unfoldable pub null_text_passes : Bytes → Option Bytes → Bool
null_text_passes wanted none = is_empty wanted
null_text_passes wanted (some text) = text_passes wanted text

unfoldable pub at_least : Option ℤ → ℕ → Bool
at_least none d = true
at_least (some (pos n)) d = leb n d
at_least (some (negsuc n)) d = true

unfoldable pub at_most : Option ℤ → ℕ → Bool
at_most none d = true
at_most (some (pos n)) d = leb d n
at_most (some (negsuc n)) d = false

unfoldable pub flag_passes : Option Bool → Bool → Bool
flag_passes none b = true
flag_passes (some true) b = b
flag_passes (some false) b = not b

-- No family is no condition; NULL is in no family.
unfoldable pub family_range : Bytes → Result QueryError (Option (ℕ × ℕ))
family_range family =
    if is_empty family
    then ok none
    else status_code_family_range family >>= λ range. ok (some range)

unfoldable pub in_range : Option (ℕ × ℕ) → Option ℕ → Bool
in_range none code = true
in_range (some (lo, hi)) none = false
in_range (some (lo, hi)) (some code) = leb lo code && leb code hi

module _ (like : Bytes → Bytes → Bool) where
  -- The text contains the pattern, as LIKE says.
  unfoldable pub like_passes : Bytes → Bytes → Bool
  like_passes wanted text = is_empty wanted || like (codes "%" ++ wanted ++ codes "%") text

  unfoldable pub null_like_passes : Bytes → Option Bytes → Bool
  null_like_passes wanted none = is_empty wanted
  null_like_passes wanted (some text) = like_passes wanted text

  -- The conditions on the row of the fetch, which is joined only where one of them is given.
  unfoldable pub fetch_matches : QueryFilter → Option (ℕ × ℕ) → Option Fetch → Bool
  fetch_matches filter range none =
      is_empty filter.status_code_family && is_empty filter.content_type
  fetch_matches filter range (some f) =
      in_range range f.status_code && null_like_passes filter.content_type f.content_type

  unfoldable pub url_matches : QueryFilter → Option UrlRow → Bool
  url_matches filter none = false
  url_matches filter (some u) = u.is_internal && like_passes filter.url_pattern u.normalized_url

  unfoldable pub page_matches : Tables → Bytes → QueryFilter → Option (ℕ × ℕ) → Page → Bool
  page_matches db job_id filter range p =
      bytes_eq p.job_id job_id
      && url_matches filter (url_row p.url_id db.urls)
      && null_text_passes filter.url_group p.url_group
      && at_least filter.min_depth p.depth
      && at_most filter.max_depth p.depth
      && fetch_matches filter range (fetch_row p.fetch_id db.fetches)

  -- The error of a cursor comes before that of a family.
  unfoldable pub query_pages :
      Tables → Bytes → QueryFilter → Bytes → ℤ → Result QueryError (PagedResult Page)
  query_pages db job_id filter cursor limit =
      let applicable =
        codes "URLPattern"
        ∷ codes "URLGroup"
        ∷ codes "MinDepth"
        ∷ codes "MaxDepth"
        ∷ codes "StatusCodeFamily"
        ∷ codes "ContentType"
        ∷ [] in
      decode_cursor cursor >>= λ _. family_range filter.status_code_family >>= λ range.
      paged (λ p. p.id) (page_matches db job_id filter range)
        (collect_ignored_filters filter applicable) db.pages limit cursor

  -- The URL of an issue is joined only where there is a pattern.
  unfoldable pub issue_url_matches : Bytes → Option UrlRow → Bool
  issue_url_matches pattern none = is_empty pattern
  issue_url_matches pattern (some u) = like_passes pattern u.normalized_url

  unfoldable pub issue_matches : Tables → Bytes → QueryFilter → Issue → Bool
  issue_matches db job_id filter i =
      bytes_eq i.job_id job_id
      && text_passes filter.issue_type i.issue_type
      && text_passes filter.severity i.severity
      && issue_url_matches filter.url_pattern (url_row_of i.url_id db.urls)

  unfoldable pub query_issues :
      Tables → Bytes → QueryFilter → Bytes → ℤ → Result QueryError (PagedResult Issue)
  query_issues db job_id filter cursor limit =
      let applicable = codes "IssueType" ∷ codes "Severity" ∷ codes "URLPattern" ∷ [] in
      paged (λ i. i.id) (issue_matches db job_id filter) (collect_ignored_filters filter applicable)
        db.issues limit cursor

  unfoldable pub target_matches : Bytes → Option UrlRow → Bool
  target_matches domain none = is_empty domain
  target_matches domain (some u) = text_passes domain u.host

  unfoldable pub edge_matches : Tables → Bytes → QueryFilter → Edge → Bool
  edge_matches db job_id filter e =
      bytes_eq e.job_id job_id
      && text_passes filter.relation_type e.relation_type
      && flag_passes filter.is_internal e.is_internal
      && target_matches filter.target_domain (url_row_of e.normalized_target_url_id db.urls)

  unfoldable pub query_edges_view :
      Tables → Bytes → QueryFilter → Bytes → ℤ → Result QueryError (PagedResult Edge)
  query_edges_view db job_id filter cursor limit =
      let applicable = codes "RelationType" ∷ codes "IsInternal" ∷ codes "TargetDomain" ∷ [] in
      paged (λ e. e.id) (edge_matches db job_id filter) (collect_ignored_filters filter applicable)
        db.edges limit cursor

  unfoldable pub response_matches : Bytes → Option (ℕ × ℕ) → Fetch → Bool
  response_matches job_id range f = bytes_eq f.job_id job_id && in_range range f.status_code

  unfoldable pub query_response_codes :
      Tables → Bytes → QueryFilter → Bytes → ℤ → Result QueryError (PagedResult Fetch)
  query_response_codes db job_id filter cursor limit =
      let applicable = codes "StatusCodeFamily" ∷ [] in
      decode_cursor cursor >>= λ _. family_range filter.status_code_family >>= λ range.
      paged (λ f. f.id) (response_matches job_id range) (collect_ignored_filters filter applicable)
        db.fetches limit cursor
