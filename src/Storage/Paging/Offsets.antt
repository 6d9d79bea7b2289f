-- ===== src/Storage/Paging/Offsets.antt =====
-- The queries of internal/storage/queries_offset.go on pages, issues, edges and fetches. What SQLite
-- makes of LIKE and of an ORDER BY clause is an argument.
use seo_crawler_mcp.Prelude.{
  ℕ, Bool, false, ◌&&◌, ◌||◌, not, Option, none, some, List, [], ◌++◌, Bytes, codes, is_empty,
  bytes_eq, any, keep, length, take, drop, ◌==◌, to_lower, trim_space,
}
use seo_crawler_mcp.Prelude.Int.{ℤ, pos, negsuc}
use seo_crawler_mcp.Prelude.Result.{Result, ok, ◌>>=◌}
use seo_crawler_mcp.Storage.Rows.{
  UrlRow, Fetch, Page, Issue, Edge, Tables, url_row, fetch_row, url_row_of,
}
use seo_crawler_mcp.Storage.Paging.{QueryFilter, PagedResult, QueryError, is_set}
use seo_crawler_mcp.Storage.Paging.Pages.{
  text_passes, null_text_passes, at_least, at_most, flag_passes, family_range, in_range,
  like_passes, null_like_passes, fetch_matches, url_matches, target_matches, issue_url_matches,
}
use seo_crawler_mcp.Storage.Paging.Order.{
  order_clause, page_sorts, issue_sorts, edge_sorts, response_sorts,
}

-- LIMIT and OFFSET: a negative limit is none, a negative offset 0.
unfoldable pub skipped_by : {A : Type 0} → ℤ → List A → List A
skipped_by (pos offset) rows = drop offset rows
skipped_by (negsuc offset) rows = rows

unfoldable pub limited : {A : Type 0} → ℤ → List A → List A
limited (pos limit) rows = take limit rows
limited (negsuc limit) rows = rows

unfoldable pub sorted_by : Bytes → QueryFilter → Bool
sorted_by key filter = bytes_eq (to_lower (trim_space filter.sort_by)) key

-- The rows that match, in the order of the clause, and how many there are.
unfoldable pub by_offset :
    {A : Type 0} → (Bytes → List A → List A) → Bytes → List A → ℤ → ℤ → PagedResult A
by_offset order_by clause matching limit offset = record {
  results = limited limit (skipped_by offset (order_by clause matching));
  next_cursor = [];
  total_count = length matching;
  ignored_filters = [];
}

-- A condition on the presence of issues, if it is one of the two.
unfoldable pub presence_passes : Tables → Bytes → Page → Bool
presence_passes db presence p =
    let present =
      any
        (λ i.
          bytes_eq i.job_id p.job_id && elim i.url_id [ none ↦ false | some id ↦ id == p.url_id ])
        db.issues in
    (not (bytes_eq presence (codes "has_issues")) || present)
    && (not (bytes_eq presence (codes "no_issues")) || not present)

-- The row that is joined where it is needed.
unfoldable pub joins : {A : Type 0} → Bool → Option A → Bool
joins needed row = not needed || is_set row

module _ (like : Bytes → Bytes → Bool) where
  unfoldable pub page_matches_offset : Tables → Bytes → QueryFilter → Option (ℕ × ℕ) → Page → Bool
  page_matches_offset db job_id filter range p =
      bytes_eq p.job_id job_id
      && url_matches like filter (url_row p.url_id db.urls)
      && null_text_passes filter.url_group p.url_group
      && text_passes filter.indexability p.indexability_state
      && presence_passes db filter.issue_presence p
      && at_least filter.min_depth p.depth
      && at_most filter.max_depth p.depth
      && fetch_matches like filter range (fetch_row p.fetch_id db.fetches)
      && joins (sorted_by (codes "status") filter) (fetch_row p.fetch_id db.fetches)

  unfoldable pub query_pages_offset :
      (Bytes → List Page → List Page)
      → Tables
      → Bytes
      → QueryFilter
      → ℤ
      → ℤ
      → Result QueryError (PagedResult Page)
  query_pages_offset order_by db job_id filter limit offset =
      family_range filter.status_code_family >>= λ range. ok (
        by_offset order_by
          (order_clause filter.sort_by filter.sort_dir page_sorts (codes "p.id")
            ++ codes ", p.id ASC")
          (keep (page_matches_offset db job_id filter range) db.pages) limit offset)

  unfoldable pub issue_matches_offset : Tables → Bytes → QueryFilter → Issue → Bool
  issue_matches_offset db job_id filter i =
      bytes_eq i.job_id job_id
      && text_passes filter.issue_type i.issue_type
      && text_passes filter.severity i.severity
      && joins (sorted_by (codes "url") filter) (url_row_of i.url_id db.urls)
      && issue_url_matches like filter.url_pattern (url_row_of i.url_id db.urls)

  unfoldable pub query_issues_offset :
      (Bytes → List Issue → List Issue) → Tables → Bytes → QueryFilter → ℤ → ℤ → PagedResult Issue
  query_issues_offset order_by db job_id filter limit offset =
      by_offset order_by
        (order_clause filter.sort_by filter.sort_dir issue_sorts (codes "i.id")
          ++ codes ", i.id ASC")
        (keep (issue_matches_offset db job_id filter) db.issues) limit offset

  -- The pattern is looked for in the source and in the declared target. A target that has no row is
  -- joined as NULL.
  unfoldable pub source_matches : Bytes → Option UrlRow → Edge → Bool
  source_matches pattern none e = is_empty pattern
  source_matches pattern (some u) e =
      like_passes like pattern u.normalized_url || like_passes like pattern e.declared_target_url

  unfoldable pub edge_matches_offset : Tables → Bytes → QueryFilter → Edge → Bool
  edge_matches_offset db job_id filter e =
      bytes_eq e.job_id job_id
      && text_passes filter.relation_type e.relation_type
      && flag_passes filter.is_internal e.is_internal
      && joins (sorted_by (codes "source") filter) (url_row e.source_url_id db.urls)
      && source_matches filter.url_pattern (url_row e.source_url_id db.urls) e
      && target_matches like filter.target_domain (url_row_of e.normalized_target_url_id db.urls)

  unfoldable pub query_edges_offset :
      (Bytes → List Edge → List Edge) → Tables → Bytes → QueryFilter → ℤ → ℤ → PagedResult Edge
  query_edges_offset order_by db job_id filter limit offset =
      by_offset order_by
        (order_clause filter.sort_by filter.sort_dir edge_sorts (codes "e.id")
          ++ codes ", e.id ASC")
        (keep (edge_matches_offset db job_id filter) db.edges) limit offset

  unfoldable pub response_matches_offset :
      Tables → Bytes → QueryFilter → Option (ℕ × ℕ) → Fetch → Bool
  response_matches_offset db job_id filter range f =
      bytes_eq f.job_id job_id
      && in_range range f.status_code
      && null_like_passes like filter.content_type f.content_type
      && joins (sorted_by (codes "url") filter) (url_row f.requested_url_id db.urls)
      && issue_url_matches like filter.url_pattern (url_row f.requested_url_id db.urls)

  unfoldable pub query_response_codes_offset :
      (Bytes → List Fetch → List Fetch)
      → Tables
      → Bytes
      → QueryFilter
      → ℤ
      → ℤ
      → Result QueryError (PagedResult Fetch)
  query_response_codes_offset order_by db job_id filter limit offset =
      family_range filter.status_code_family >>= λ range. ok (
        by_offset order_by
          (order_clause filter.sort_by filter.sort_dir response_sorts (codes "f.id")
            ++ codes ", f.id ASC")
          (keep (response_matches_offset db job_id filter range) db.fetches) limit offset)
