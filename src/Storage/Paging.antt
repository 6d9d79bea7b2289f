-- ===== src/Storage/Paging.antt =====
-- The paged queries of internal/storage/queries.go. A cursor is the id of the last row, in decimal and
-- base64.
pub mod Pages
pub mod Offsets
pub mod Order
pub mod Cursors
pub mod Sorting
pub mod Whole
pub mod Complete
pub mod Totals
use seo_crawler_mcp.Prelude.{
  ℕ, zero, suc, ◌+◌, Bool, true, false, not, ◌&&◌, Option, none, some, List, [], ◌∷◌, ◌++◌, Bytes,
  codes, is_empty, bytes_eq, bytes_mem, if◌then◌else◌, ltb, leb, length, keep, take,
}
use seo_crawler_mcp.Prelude.Int.{ℤ, pos, negsuc}
use seo_crawler_mcp.Prelude.Result.{Result, ok, err, ◌>>=◌}
use seo_crawler_mcp.Storage.Decimal.{format_int, parse_int}
use seo_crawler_mcp.Storage.Base64.{encode_to_string, decode_string}

pub record QueryFilter : Type 0 where
  pub issue_type : Bytes
  pub severity : Bytes
  pub status_code_family : Bytes
  pub url_pattern : Bytes
  pub url_group : Bytes
  pub indexability : Bytes
  pub issue_presence : Bytes
  pub min_depth : Option ℤ
  pub max_depth : Option ℤ
  pub is_internal : Option Bool
  pub relation_type : Bytes
  pub content_type : Bytes
  pub cluster_type : Bytes
  pub target_domain : Bytes
  pub sort_by : Bytes
  pub sort_dir : Bytes

pub record PagedResult (A : Type 0) : Type 0 where
  pub results : List A
  pub next_cursor : Bytes
  pub total_count : ℕ
  pub ignored_filters : List Bytes

pub data QueryError : Type 0 where
  decoding_cursor parsing_cursor unknown_family : Bytes → QueryError

abbrev pub default_cursor_limit : ℕ
default_cursor_limit = 100

unfoldable pub normalize_cursor_limit : ℤ → ℕ
normalize_cursor_limit (pos (suc n)) = suc n
normalize_cursor_limit _ = default_cursor_limit

unfoldable pub encode_cursor : ℕ → Bytes
encode_cursor id = encode_to_string (format_int (pos id))

unfoldable pub decode_cursor : Bytes → Result QueryError ℤ
decode_cursor cursor = if is_empty cursor then ok (pos 0) else elim (decode_string cursor) [
  | none ↦ err (decoding_cursor cursor)
  | some raw ↦ elim (parse_int raw) [ none ↦ err (parsing_cursor raw) | some id ↦ ok id ]
]

unfoldable pub status_code_family_range : Bytes → Result QueryError (ℕ × ℕ)
status_code_family_range family =
    if bytes_eq family (codes "2xx")
    then ok (200, 299)
    else if bytes_eq family (codes "3xx")
    then ok (300, 399)
    else if bytes_eq family (codes "4xx")
    then ok (400, 499)
    else if bytes_eq family (codes "5xx")
    then ok (500, 599)
    else err (unknown_family family)

unfoldable pub is_set : {A : Type 0} → Option A → Bool
is_set none = false
is_set (some a) = true

-- The name of a filter that is given and does not apply, before the others.
unfoldable pub unless_applicable : List Bytes → Bool → Bytes → List Bytes → List Bytes
unless_applicable applicable given name others =
    if given && not (bytes_mem name applicable) then name ∷ others else others

unfoldable pub collect_ignored_filters : QueryFilter → List Bytes → List Bytes
collect_ignored_filters f applicable =
    let check = unless_applicable applicable in
    check (not (is_empty f.issue_type)) (codes "IssueType") (
      check (not (is_empty f.severity)) (codes "Severity") (
        check (not (is_empty f.status_code_family)) (codes "StatusCodeFamily") (
          check (not (is_empty f.url_pattern)) (codes "URLPattern") (
            check (not (is_empty f.url_group)) (codes "URLGroup") (
              check (is_set f.min_depth) (codes "MinDepth") (
                check (is_set f.max_depth) (codes "MaxDepth") (
                  check (is_set f.is_internal) (codes "IsInternal") (
                    check (not (is_empty f.relation_type)) (codes "RelationType") (
                      check (not (is_empty f.content_type)) (codes "ContentType") (
                        check (not (is_empty f.cluster_type)) (codes "ClusterType") (
                          check (not (is_empty f.target_domain)) (codes "TargetDomain")
                            [])))))))))))

-- id > cursor.
unfoldable pub is_after : ℤ → ℕ → Bool
is_after (pos c) id = ltb c id
is_after (negsuc c) id = true

module _ {A : Type 0} (id_of : A → ℕ) where
  unfoldable pub insert_by_id : A → List A → List A
  insert_by_id x [] = x ∷ []
  insert_by_id x (y ∷ ys) =
      let later = insert_by_id x ys in if ltb (id_of y) (id_of x) then y ∷ later else x ∷ y ∷ ys

  -- ORDER BY id ASC.
  unfoldable pub by_id : List A → List A
  by_id [] = []
  by_id (x ∷ xs) = insert_by_id x (by_id xs)

  unfoldable pub last_id : List A → ℕ
  last_id [] = 0
  last_id (x ∷ []) = id_of x
  last_id (x ∷ y ∷ ys) = last_id (y ∷ ys)

  -- The results and the next cursor of the rows that were read, of which there may be one too many.
  unfoldable pub cut : ℕ → List A → List A × Bytes
  cut limit rows =
      if ltb limit (length rows)
      then (take limit rows, encode_cursor (last_id (take limit rows)))
      else (rows, [])

  -- The statement with the cursor, and the one that counts. `matches` is the rest of both.
  unfoldable pub paged :
      (A → Bool) → List Bytes → List A → ℤ → Bytes → Result QueryError (PagedResult A)
  paged matches ignored table limit cursor = decode_cursor cursor >>= λ cursor_id.
      let n = normalize_cursor_limit limit in
      let (results, next) =
        cut n
          (take (suc n) (keep (λ r. matches r && is_after cursor_id (id_of r)) (by_id table))) in
      ok (record {
        results = results;
        next_cursor = next;
        total_count = length (keep matches table);
        ignored_filters = ignored;
      })
