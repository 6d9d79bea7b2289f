-- ===== src/Storage/Paging/Complete.antt =====
-- The paged queries read every row that matches once, in the order of the ids.
use seo_crawler_mcp.Prelude.{ℕ, Bool, Option, List, Bytes, keep, ◌≡◌, sym, ap, subst, ◌∙◌}
use mathlib.Core.Path.{fun_ext}
use seo_crawler_mcp.Prelude.Int.{ℤ}
use seo_crawler_mcp.Prelude.Result.{Result, ok, ◌>>=◌, bind_twice}
use seo_crawler_mcp.Storage.Rows.{Tables}
use seo_crawler_mcp.Storage.Paging.{
  QueryFilter, PagedResult, QueryError, decode_cursor, by_id, paged,
}
use seo_crawler_mcp.Storage.Paging.Pages.{
  family_range, page_matches, query_pages, issue_matches, query_issues, edge_matches,
  query_edges_view, response_matches, query_response_codes,
}
use seo_crawler_mcp.Storage.Paging.Whole.{IsPaged, IsKeyed, paged_lem}

-- The ids of each table are different, positive and int64.
pub record IsDatabase (db : Tables) : Type 0 where
  pub pages : IsKeyed (λ p. p.id) db.pages
  pub issues : IsKeyed (λ i. i.id) db.issues
  pub edges : IsKeyed (λ e. e.id) db.edges
  pub fetches : IsKeyed (λ f. f.id) db.fetches

module _ (like : Bytes → Bytes → Bool) (db : Tables) (job_id : Bytes) (filter : QueryFilter)
    (limit : ℤ) where
  -- With a family that is known, its test changes nothing.
  known_family :
      {A : Type 0} (range : Option (ℕ × ℕ))
      (query : Option (ℕ × ℕ) → Bytes → Result QueryError (PagedResult A)) (cursor : Bytes)
      → family_range filter.status_code_family ≡ ok range
      → ((decode_cursor cursor >>= λ _.
            family_range filter.status_code_family >>= λ r. query r cursor)
          ≡ (decode_cursor cursor >>= λ _. query range cursor))
  known_family range query cursor h =
      ap (λ r. decode_cursor cursor >>= λ _. (r >>= λ r'. query r' cursor)) h

  decoded_once :
      {A : Type 0} (id_of : A → ℕ) (matches : A → Bool) (ignored : List Bytes) (table : List A)
      (cursor : Bytes)
      → (decode_cursor cursor >>= λ _. paged id_of matches ignored table limit cursor)
        ≡ paged id_of matches ignored table limit cursor
  unfolding paged
  decoded_once id_of matches ignored table cursor = bind_twice (decode_cursor cursor) _

  -- A query that tests the cursor and the family first.
  with_family-IsPaged :
      {A : Type 0} (id_of : A → ℕ) (matches : Option (ℕ × ℕ) → A → Bool) (ignored : List Bytes)
      (table : List A) (range : Option (ℕ × ℕ))
      → IsKeyed id_of table
      → family_range filter.status_code_family ≡ ok range
      → IsPaged
          (λ cursor. decode_cursor cursor >>= λ _. family_range filter.status_code_family >>= λ r.
            paged id_of (matches r) ignored table limit cursor)
          (keep (matches range) (by_id id_of table))
  with_family-IsPaged id_of matches ignored table range keyed h =
      let same = fun_ext (λ cursor.
        known_family range (λ r. paged id_of (matches r) ignored table limit) cursor h
        ∙ decoded_once id_of (matches range) ignored table cursor) in
      subst (λ query. IsPaged query (keep (matches range) (by_id id_of table))) (sym same)
        (paged_lem id_of (matches range) ignored table limit keyed)

  -- Where ids are different, positive and int64, and the family of status codes is none or a known one,
  -- a client that follows the cursors of QueryPages, QueryIssues, QueryEdgesView or QueryResponseCodes
  -- from the start to their end, which it reaches, reads each row that meets the conditions once, in
  -- the order of the ids, for every limit; and the total count that each page states is their number.
  pub queries-IsPaged :
      (range : Option (ℕ × ℕ))
      → IsDatabase db
      → family_range filter.status_code_family ≡ ok range
      → IsPaged
          (λ cursor. query_pages like db job_id filter cursor limit)
          (keep (page_matches like db job_id filter range) (by_id (λ p. p.id) db.pages))
        × IsPaged
            (λ cursor. query_issues like db job_id filter cursor limit)
            (keep (issue_matches like db job_id filter) (by_id (λ i. i.id) db.issues))
        × IsPaged
            (λ cursor. query_edges_view like db job_id filter cursor limit)
            (keep (edge_matches like db job_id filter) (by_id (λ e. e.id) db.edges))
        × IsPaged
            (λ cursor. query_response_codes like db job_id filter cursor limit)
            (keep (response_matches like job_id range) (by_id (λ f. f.id) db.fetches))
  unfolding query_pages query_issues query_edges_view query_response_codes
  queries-IsPaged range keyed h = (
    with_family-IsPaged (λ p. p.id) (page_matches like db job_id filter) _ db.pages range
        keyed.pages h,
    paged_lem (λ i. i.id) (issue_matches like db job_id filter) _ db.issues limit keyed.issues,
    paged_lem (λ e. e.id) (edge_matches like db job_id filter) _ db.edges limit keyed.edges,
    with_family-IsPaged (λ f. f.id) (response_matches like job_id) _ db.fetches range keyed.fetches
        h,
  )
