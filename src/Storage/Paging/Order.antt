-- ===== src/Storage/Paging/Order.antt =====
-- How internal/storage/queries_offset.go writes ORDER BY: normalizeSortDirection, orderClause with the
-- columns of each table, and prefixedSelectColumns.
use seo_crawler_mcp.Prelude.{
  false, List, [], ◌∷◌, ◌++◌, Bytes, codes, is_empty, bytes_eq, if◌then◌else◌, to_lower, trim_space,
  Any, here, there, Bool-cases, ◌≡◌, sym, ap, subst, ◌∙◌, ◌⊎◌, inl, inr,
}
use seo_crawler_mcp.Prelude.Split.{split}

unfoldable pub normalize_sort_direction : Bytes → Bytes
normalize_sort_direction dir =
    if bytes_eq (to_lower dir) (codes "desc") then codes "DESC" else codes "ASC"

-- A missing key reads as the empty text.
unfoldable pub allowed_expr : Bytes → List (Bytes × Bytes) → Bytes
allowed_expr key [] = []
allowed_expr key ((k, expr) ∷ rest) =
    let later = allowed_expr key rest in if bytes_eq k key then expr else later

unfoldable pub sort_expr : Bytes → List (Bytes × Bytes) → Bytes → Bytes
sort_expr sort_by allowed fallback =
    let expr = allowed_expr (to_lower (trim_space sort_by)) allowed in
    if is_empty expr then fallback else expr

unfoldable pub order_clause : Bytes → Bytes → List (Bytes × Bytes) → Bytes → Bytes
order_clause sort_by sort_dir allowed fallback =
    codes " ORDER BY "
    ++ sort_expr sort_by allowed fallback
    ++ codes " "
    ++ normalize_sort_direction sort_dir

unfoldable pub prefixed_columns : Bytes → List Bytes → Bytes
prefixed_columns prefix [] = []
prefixed_columns prefix (part ∷ []) = prefix ++ codes "." ++ trim_space part
prefixed_columns prefix (part ∷ next ∷ rest) =
    prefix ++ codes "." ++ trim_space part ++ codes ", " ++ prefixed_columns prefix (next ∷ rest)

unfoldable pub prefixed_select_columns : Bytes → Bytes → Bytes
prefixed_select_columns prefix columns = prefixed_columns prefix (split b',' columns)

abbrev pub issue_sorts : List (Bytes × Bytes)
issue_sorts =
    (codes "url", codes "u.normalized_url")
    ∷ (codes "type", codes "i.issue_type")
    ∷ (
      codes "severity",
      codes
          "CASE i.severity WHEN 'error' THEN 1 WHEN 'warning' THEN 2 WHEN 'info' THEN 3 ELSE 4 END",
    )
    ∷ (codes "scope", codes "i.scope")
    ∷ []

abbrev pub edge_sorts : List (Bytes × Bytes)
edge_sorts =
    (codes "source", codes "su.normalized_url")
    ∷ (codes "target", codes "COALESCE(tu.normalized_url, e.declared_target_url)")
    ∷ (codes "anchor", codes "e.anchor_text")
    ∷ (codes "discovery", codes "e.discovery_mode")
    ∷ (codes "status", codes "e.target_status_code")
    ∷ []

abbrev pub response_sorts : List (Bytes × Bytes)
response_sorts =
    (codes "url", codes "u.normalized_url")
    ∷ (codes "status", codes "f.status_code")
    ∷ (codes "content_type", codes "f.content_type")
    ∷ (codes "ttfb", codes "f.ttfb_ms")
    ∷ (codes "size", codes "f.response_body_size")
    ∷ []

-- SitemapComparableURLSQL: an expression without the scheme, a leading www. and trailing slashes.
unfoldable pub sitemap_comparable_url_sql : Bytes → Bytes
sitemap_comparable_url_sql expr =
    codes "rtrim(CASE\n\t\tWHEN lower("
    ++ expr
    ++ codes ") LIKE 'https://www.%' THEN substr(lower("
    ++ expr
    ++ codes "), 13)\n\t\tWHEN lower("
    ++ expr
    ++ codes ") LIKE 'http://www.%' THEN substr(lower("
    ++ expr
    ++ codes "), 12)\n\t\tWHEN lower("
    ++ expr
    ++ codes ") LIKE 'https://%' THEN substr(lower("
    ++ expr
    ++ codes "), 9)\n\t\tWHEN lower("
    ++ expr
    ++ codes ") LIKE 'http://%' THEN substr(lower("
    ++ expr
    ++ codes "), 8)\n\t\tELSE lower("
    ++ expr
    ++ codes ")\n\tEND, '/')"

unfoldable pub page_sorts : List (Bytes × Bytes)
page_sorts =
    (codes "url", codes "u.normalized_url")
    ∷ (codes "title", codes "p.title")
    ∷ (codes "status", codes "f.status_code")
    ∷ (
      codes "sitemap",
      codes "EXISTS (SELECT 1 FROM sitemap_entries se WHERE se.job_id = p.job_id AND "
          ++ sitemap_comparable_url_sql (codes "se.url")
          ++ codes " = "
          ++ sitemap_comparable_url_sql (codes "u.normalized_url")
          ++ codes ")",
    )
    ∷ (codes "depth", codes "p.depth")
    ∷ (codes "words", codes "p.word_count")
    ∷ (
      codes "issues",
      codes "(SELECT COUNT(*) FROM issues i WHERE i.job_id = p.job_id AND i.url_id = p.url_id)",
    )
    ∷ (codes "inbound", codes "p.inbound_edge_count")
    ∷ (codes "outbound", codes "p.outbound_edge_count")
    ∷ []

direction :
    (dir : Bytes)
    → (normalize_sort_direction dir ≡ codes "ASC") ⊎ (normalize_sort_direction dir ≡ codes "DESC")
unfolding normalize_sort_direction
direction dir = elim (Bool-cases (bytes_eq (to_lower dir) (codes "desc"))) [
  | inl e ↦ inr (ap (λ b. if b then codes "DESC" else codes "ASC") e)
  | inr e ↦ inl (ap (λ b. if b then codes "DESC" else codes "ASC") e)
]

allowed_expr-Any :
    (key : Bytes) (allowed : List (Bytes × Bytes))
    → is_empty (allowed_expr key allowed) ≡ false
    → Any (λ entry. allowed_expr key allowed ≡ entry.1) allowed
unfolding allowed_expr
allowed_expr-Any key [] h = absurd (cc h)
allowed_expr-Any key ((k, expr) ∷ rest) h = elim (Bool-cases (bytes_eq k key)) [
  | inl e ↦ here (ap (λ b. if b then expr else allowed_expr key rest) e)
  | inr e ↦
      let skips = ap (λ b. if b then expr else allowed_expr key rest) e in
      there (
        subst (λ t. Any (λ entry. t ≡ entry.1) rest) (sym skips)
          (allowed_expr-Any key rest (sym (ap is_empty skips) ∙ h)))
]

sort_expr-Any :
    (sort_by : Bytes) (allowed : List (Bytes × Bytes)) (fallback : Bytes)
    → Any (λ entry. sort_expr sort_by allowed fallback ≡ entry.1) ((sort_by, fallback) ∷ allowed)
unfolding sort_expr
sort_expr-Any sort_by allowed fallback =
    let expr = allowed_expr (to_lower (trim_space sort_by)) allowed in
    elim (Bool-cases (is_empty expr)) [
      | inl e ↦ here (ap (λ b. if b then fallback else expr) e)
      | inr e ↦ there (
          subst (λ b. Any (λ entry. (if b then fallback else expr) ≡ entry.1) allowed) (sym e)
            (allowed_expr-Any (to_lower (trim_space sort_by)) allowed e))
    ]

-- What orderClause writes is ORDER BY with one of the expressions of the table or the fallback, and ASC
-- or DESC: nothing of what a request asks for gets into the statement.
pub order_clause-Any :
    (sort_by sort_dir : Bytes) (allowed : List (Bytes × Bytes)) (fallback : Bytes)
    → (dir : Bytes) × ((dir ≡ codes "ASC") ⊎ (dir ≡ codes "DESC"))
      × Any
          (λ entry.
            order_clause sort_by sort_dir allowed fallback
            ≡ codes " ORDER BY " ++ entry.1 ++ codes " " ++ dir)
          ((sort_by, fallback) ∷ allowed)
unfolding order_clause
order_clause-Any sort_by sort_dir allowed fallback =
    let dir = normalize_sort_direction sort_dir in
    (
      dir,
      direction sort_dir,
      any_under (λ text. codes " ORDER BY " ++ text ++ codes " " ++ dir)
          (sort_expr-Any sort_by allowed fallback),
    )
  where
    any_under :
        (f : Bytes → Bytes) {t : Bytes} {entries : List (Bytes × Bytes)}
        → Any (λ entry. t ≡ entry.1) entries
        → Any (λ entry. f t ≡ f entry.1) entries
    any_under f (here h) = here (ap f h)
    any_under f (there a) = there (any_under f a)
