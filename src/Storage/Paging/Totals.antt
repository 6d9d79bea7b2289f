-- ===== src/Storage/Paging/Totals.antt =====
-- What the order of the issues costs: an issue without a URL is not among those sorted by URL.
use seo_crawler_mcp.Prelude.{
  ◌+◌, Bool, true, false, ◌&&◌, not, List, [], ◌∷◌, Bytes, codes, bytes_eq, length, to_lower,
  to_lower_byte, trim_space, trim_left, trim_right, is_space, keep, ◌++◌, ◌≡◌, refl, ap, ◌∙◌, arith,
}
use seo_crawler_mcp.Prelude.Int.{ℤ}
use seo_crawler_mcp.Storage.Rows.{Issue, Tables, url_row_of}
use seo_crawler_mcp.Storage.Paging.{QueryFilter, is_set}
use seo_crawler_mcp.Storage.Paging.Offsets.{
  skipped_by, limited, sorted_by, by_offset, joins, issue_matches_offset, query_issues_offset,
}
use seo_crawler_mcp.Storage.Paging.Order.{order_clause, issue_sorts}

-- A test that is two tests.
keep-keep :
    {A : Type 0} (p q r : A → Bool) (xs : List A)
    → ((x : A) → r x ≡ (p x && q x))
    → keep r xs ≡ keep q (keep p xs)
keep-keep p q r [] h = refl
keep-keep p q r (x ∷ xs) h = let hx = h x in ground (arith, keep-keep p q r xs h, hx)

-- Every row passes a test, or does not.
length-keep_halves :
    {A : Type 0} (q : A → Bool) (xs : List A)
    → length (keep q xs) + length (keep (λ x. not (q x)) xs) ≡ length xs
length-keep_halves q [] = refl
length-keep_halves q (x ∷ xs) = ground (arith, length-keep_halves q xs)

module _ (like : Bytes → Bytes → Bool) (db : Tables) (job_id : Bytes) (filter : QueryFilter) where
  abbrev pub by_url : QueryFilter
  by_url = record filter { sort_by = codes "url" }

  abbrev pub has_url : Issue → Bool
  has_url i = is_set (url_row_of i.url_id db.urls)

  by_url-sorted : sorted_by (codes "url") by_url ≡ true
  unfolding sorted_by to_lower trim_space trim_left trim_right is_space to_lower_byte bytes_eq
  by_url-sorted = refl

  issue_matches_offset-by_url :
      (i : Issue)
      → sorted_by (codes "url") filter ≡ false
      → issue_matches_offset like db job_id by_url i
        ≡ (issue_matches_offset like db job_id filter i && has_url i)
  unfolding issue_matches_offset joins
  issue_matches_offset-by_url i h = let s = by_url-sorted in ground (arith, h, s)

  -- Where the issues that a request asks for are sorted by URL, its results are a page of those of the
  -- issues that have a URL, in the order of the clause, and the total count is less by the number of
  -- those that have none, for every filter that does not sort by URL itself.
  pub query_issues_offset_total :
      (order_by : Bytes → List Issue → List Issue) (limit offset : ℤ)
      → sorted_by (codes "url") filter ≡ false
      → ((query_issues_offset like order_by db job_id by_url limit offset).results
          ≡ limited limit (
              skipped_by offset (
                order_by
                  (order_clause (codes "url") filter.sort_dir issue_sorts (codes "i.id")
                    ++ codes ", i.id ASC")
                  (keep has_url (keep (issue_matches_offset like db job_id filter) db.issues)))))
        × ((query_issues_offset like order_by db job_id by_url limit offset).total_count
              + length (
                  keep
                    (λ i. not (has_url i))
                    (keep (issue_matches_offset like db job_id filter) db.issues))
            ≡ (query_issues_offset like order_by db job_id filter limit offset).total_count)
  unfolding query_issues_offset by_offset
  query_issues_offset_total order_by limit offset h =
      let matches = issue_matches_offset like db job_id filter in
      let clause =
        order_clause (codes "url") filter.sort_dir issue_sorts (codes "i.id")
        ++ codes ", i.id ASC" in
      let same =
        keep-keep matches has_url (issue_matches_offset like db job_id by_url) db.issues
          (λ i. issue_matches_offset-by_url i h) in
      (
        ap (λ rows. limited limit (skipped_by offset (order_by clause rows))) same,
        ap (λ rows. length rows + length (keep (λ i. not (has_url i)) (keep matches db.issues)))
              same
            ∙ length-keep_halves has_url (keep matches db.issues),
      )
