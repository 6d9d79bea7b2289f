-- ===== src/Tests/Paging.antt =====
-- The paged queries of internal/storage on small tables, and their theorems at them.
use seo_crawler_mcp.Prelude.{
  ℕ, Bool, true, false, Option, none, some, [], ◌∷◌, ◌++◌, Bytes, codes, keep, bytes_eq, index_byte,
  to_lower, to_lower_byte, trim_space, trim_left, trim_right, is_space, Any, ◌+◌, not, length, ◌⊎◌,
  ◌≡◌, ◌≢◌, refl, arith,
}
use seo_crawler_mcp.Prelude.Int.{pos}
use seo_crawler_mcp.Prelude.Result.{ok}
use seo_crawler_mcp.Storage.Decimal.{
  digits, format_int, is_digit, parse_digits, parse_magnitude, parse_int,
}
use seo_crawler_mcp.Storage.Base64.{
  letter, value, encode_to_string, is_new_line, first_byte, second_byte, third_byte, ended,
  decode_group, decode_groups, decode_string,
}
use seo_crawler_mcp.Storage.Rows.{Page, Issue, Tables, url_row, fetch_row}
use seo_crawler_mcp.Storage.Paging.{QueryFilter, encode_cursor, decode_cursor, insert_by_id, by_id}
use seo_crawler_mcp.Storage.Paging.Pages.{
  null_text_passes, at_least, at_most, family_range, in_range, like_passes, null_like_passes,
  fetch_matches, url_matches, page_matches, query_pages, issue_matches, query_issues, edge_matches,
  query_edges_view, response_matches, query_response_codes,
}
use seo_crawler_mcp.Storage.Paging.Order.{
  normalize_sort_direction, allowed_expr, sort_expr, order_clause, issue_sorts, order_clause-Any,
}
use seo_crawler_mcp.Storage.Paging.Offsets.{sorted_by, issue_matches_offset, query_issues_offset}
use seo_crawler_mcp.Storage.Paging.Cursors.{decode_cursor-encode_cursor}
use seo_crawler_mcp.Storage.Paging.Whole.{IsPaged}
use seo_crawler_mcp.Storage.Paging.Complete.{IsDatabase, queries-IsPaged}
use seo_crawler_mcp.Storage.Paging.Offsets.{limited, skipped_by}
use seo_crawler_mcp.Storage.Paging.Totals.{by_url, has_url, query_issues_offset_total}

-- SQLite's LIKE plays no part without a pattern.
abbrev like : Bytes → Bytes → Bool
like pattern text = true

abbrev job : Bytes
job = codes "j"

abbrev no_filter : QueryFilter
no_filter = record {
  issue_type = [];
  severity = [];
  status_code_family = [];
  url_pattern = [];
  url_group = [];
  indexability = [];
  issue_presence = [];
  min_depth = none;
  max_depth = none;
  is_internal = none;
  relation_type = [];
  content_type = [];
  cluster_type = [];
  target_domain = [];
  sort_by = [];
  sort_dir = [];
}

abbrev page : ℕ → Page
page id = record {
  id = id;
  job_id = job;
  url_id = 1;
  fetch_id = 1;
  depth = 0;
  url_group = none;
  indexability_state = codes "indexable";
}

abbrev issue : ℕ → Option ℕ → Issue
issue id url = record {
  id = id;
  job_id = job;
  url_id = url;
  issue_type = codes "t";
  severity = codes "error";
}

abbrev tables : Tables
tables = record {
  urls =
      record { id = 1; normalized_url = codes "http://h/"; host = codes "h"; is_internal = true }
      ∷ [];
  fetches =
      record {
        id = 1;
        job_id = job;
        requested_url_id = 1;
        status_code = some 200;
        content_type = none;
      }
      ∷ [];
  pages = page 7 ∷ page 3 ∷ page 5 ∷ [];
  issues = issue 1 (some 1) ∷ issue 2 none ∷ [];
  edges = [];
}

cursor_of_57 : encode_cursor 57 ≡ codes "NTc="
unfolding encode_cursor format_int digits encode_to_string letter
cursor_of_57 = refl

-- Skipped new lines, and what the text is then.
cursor_read_57 : decode_cursor (codes "NT\nc=") ≡ ok (pos 57)
unfolding decode_cursor decode_string decode_groups decode_group is_new_line value index_byte
    first_byte second_byte third_byte ended parse_int parse_magnitude parse_digits is_digit
cursor_read_57 = refl

order_by_url :
    order_clause (codes " URL") (codes "Desc") issue_sorts (codes "i.id")
    ≡ codes " ORDER BY u.normalized_url DESC"
unfolding order_clause sort_expr allowed_expr normalize_sort_direction bytes_eq to_lower
    to_lower_byte trim_space trim_left trim_right is_space
order_by_url = refl

decode_cursor-encode_cursor_example : decode_cursor (encode_cursor 57) ≡ ok (pos 57)
decode_cursor-encode_cursor_example = decode_cursor-encode_cursor 57 (omega arith)

tables-IsDatabase : IsDatabase tables
tables-IsDatabase =
    let differ73 : 7 ≢ 3 = omega arith in
    let differ75 : 7 ≢ 5 = omega arith in
    let differ35 : 3 ≢ 5 = omega arith in
    let differ12 : 1 ≢ 2 = omega arith in
    record {
      pages = record {
        distinct = ((differ73, (differ75, tt)), ((differ35, tt), (tt, tt)));
        positive = (omega arith, (omega arith, (omega arith, tt)));
        bounded = (omega arith, (omega arith, (omega arith, tt)));
      };
      issues = record {
        distinct = ((differ12, tt), (tt, tt));
        positive = (omega arith, (omega arith, tt));
        bounded = (omega arith, (omega arith, tt));
      };
      edges = record { distinct = tt; positive = tt; bounded = tt };
      fetches = record {
        distinct = (tt, tt);
        positive = (omega arith, tt);
        bounded = (omega arith, tt);
      };
    }

no_family : family_range [] ≡ ok none
unfolding family_range
no_family = refl

queries-IsPaged_example :
    IsPaged
      (λ cursor. query_pages like tables job no_filter cursor (pos 2))
      (keep (page_matches like tables job no_filter none) (by_id (λ p. p.id) tables.pages))
    × IsPaged
        (λ cursor. query_issues like tables job no_filter cursor (pos 2))
        (keep (issue_matches like tables job no_filter) (by_id (λ i. i.id) tables.issues))
    × IsPaged
        (λ cursor. query_edges_view like tables job no_filter cursor (pos 2))
        (keep (edge_matches like tables job no_filter) (by_id (λ e. e.id) tables.edges))
    × IsPaged
        (λ cursor. query_response_codes like tables job no_filter cursor (pos 2))
        (keep (response_matches like job none) (by_id (λ f. f.id) tables.fetches))
queries-IsPaged_example =
    queries-IsPaged like tables job no_filter (pos 2) none tables-IsDatabase no_family

-- The rows of which the theorem speaks here.
three_pages :
    keep (page_matches like tables job no_filter none) (by_id (λ p. p.id) tables.pages)
    ≡ page 3 ∷ page 5 ∷ page 7 ∷ []
unfolding page_matches url_matches url_row fetch_row fetch_matches in_range null_like_passes
    like_passes null_text_passes at_least at_most bytes_eq by_id insert_by_id
three_pages = refl

order_clause-Any_example :
    (dir : Bytes) × ((dir ≡ codes "ASC") ⊎ (dir ≡ codes "DESC"))
    × Any
        (λ entry.
          order_clause (codes "1; DROP TABLE pages") (codes "--") issue_sorts (codes "i.id")
          ≡ codes " ORDER BY " ++ entry.1 ++ codes " " ++ dir)
        ((codes "1; DROP TABLE pages", codes "i.id") ∷ issue_sorts)
order_clause-Any_example =
    order_clause-Any (codes "1; DROP TABLE pages") (codes "--") issue_sorts (codes "i.id")

unsorted : sorted_by (codes "url") no_filter ≡ false
unfolding sorted_by to_lower trim_space trim_left trim_right bytes_eq
unsorted = refl

query_issues_offset_total_example :
    ((query_issues_offset like
        (λ _ rows. rows)
        tables
        job
        (by_url like tables job no_filter)
        (pos 10)
        (pos 0)).results
      ≡ limited (pos 10) (
          skipped_by (pos 0) (
            keep
              (has_url like tables job no_filter)
              (keep (issue_matches_offset like tables job no_filter) tables.issues))))
    × ((query_issues_offset like
            (λ _ rows. rows)
            tables
            job
            (by_url like tables job no_filter)
            (pos 10)
            (pos 0)).total_count
          + length (
              keep
                (λ i. not (has_url like tables job no_filter i))
                (keep (issue_matches_offset like tables job no_filter) tables.issues))
        ≡ (query_issues_offset like
            (λ _ rows. rows)
            tables
            job
            no_filter
            (pos 10)
            (pos 0)).total_count)
query_issues_offset_total_example =
    query_issues_offset_total like tables job no_filter (λ _ rows. rows) (pos 10) (pos 0) unsorted
