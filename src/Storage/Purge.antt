-- ===== src/Storage/Purge.antt =====
-- PurgeJob in internal/storage/jobs.go: the rows of a job are deleted from each table in chunks. A
-- chunk takes the first rows of the job, where SQLite may take any; the pause between chunks, in which
-- other statements run, and the errors of the database are not modelled.
pub mod Chunks
use seo_crawler_mcp.Prelude.{
  ℕ, zero, suc, ◌+◌, Bool, true, false, not, Option, none, some, List, [], ◌∷◌, Bytes, codes,
  bytes_eq, bytes_mem, if◌then◌else◌, ltb, length, any, keep,
}
use seo_crawler_mcp.Prelude.Options.{◌>>=◌}
use seo_crawler_mcp.Storage.Jobs.{Jobs, has_id}
use mathlib.Core.List.{map}

-- A row that refers to a job, and what else it holds.
pub record Row : Type 0 where
  pub job_id : Bytes
  pub content : Bytes

pub record Table : Type 0 where
  pub name : Bytes
  pub rows : List Row

pub record Database : Type 0 where
  pub tables : List Table
  pub jobs : Jobs

abbrev pub purge_chunk_size : ℕ
purge_chunk_size = 500

abbrev pub purge_tables : List Bytes
purge_tables =
    codes "asset_references"
    ∷ codes "canonical_cluster_members"
    ∷ codes "duplicate_cluster_members"
    ∷ codes "redirect_hops"
    ∷ codes "pages"
    ∷ codes "edges"
    ∷ codes "assets"
    ∷ codes "issues"
    ∷ codes "duplicate_clusters"
    ∷ codes "canonical_clusters"
    ∷ codes "fetches"
    ∷ codes "axe_audits"
    ∷ codes "crawl_events"
    ∷ codes "global_issues"
    ∷ codes "agent_readiness_checks"
    ∷ codes "llms_findings"
    ∷ codes "markdown_negotiation"
    ∷ codes "psi_audits"
    ∷ codes "response_codes_summary"
    ∷ codes "robots_directives"
    ∷ codes "security"
    ∷ codes "sitemap_entries"
    ∷ codes "text_quality_findings"
    ∷ codes "url_pattern_groups"
    ∷ codes "url_groups"
    ∷ codes "urls"
    ∷ []

unfoldable pub is_row_of : Bytes → Row → Bool
is_row_of id r = bytes_eq r.job_id id

-- DELETE of at most so many rows of a job; and how many there were.
unfoldable pub delete_chunk : ℕ → Bytes → List Row → List Row × ℕ
delete_chunk n id [] = ([], 0)
delete_chunk zero id (r ∷ rs) = (r ∷ rs, 0)
delete_chunk (suc n) id (r ∷ rs) =
    let taken = delete_chunk n id rs in
    let left = delete_chunk (suc n) id rs in
    if is_row_of id r then (taken.0, suc taken.1) else (r ∷ left.0, left.1)

-- The loop on fuel: `none` where it runs out.
unfoldable pub purge_table_chunked : ℕ → Bytes → List Row → Option (List Row)
purge_table_chunked zero id rows = none
purge_table_chunked (suc fuel) id rows =
    let (left, n) = delete_chunk purge_chunk_size id rows in
    let next = purge_table_chunked fuel id left in
    if ltb n purge_chunk_size then some left else next

-- The table is one that the loop is at, or not.
unfoldable pub purge_if_named : ℕ → Bytes → Bytes → Table → Option Table
purge_if_named fuel id name t =
    if bytes_eq t.name name
    then (purge_table_chunked fuel id t.rows >>= λ rows. some (record t { rows = rows }))
    else some t

unfoldable pub purge_named : ℕ → Bytes → Bytes → List Table → Option (List Table)
purge_named fuel id name [] = some []
purge_named fuel id name (t ∷ ts) = do
  cleared ← purge_if_named fuel id name t
  others ← purge_named fuel id name ts
  some (cleared ∷ others)

unfoldable pub purge_listed : ℕ → Bytes → List Bytes → List Table → Option (List Table)
purge_listed fuel id [] tables = some tables
purge_listed fuel id (name ∷ names) tables = do
  cleared ← purge_named fuel id name tables
  purge_listed fuel id names cleared

unfoldable pub without_job : Bytes → Table → Table
without_job id t = record t { rows = keep (λ r. not (is_row_of id r)) t.rows }

-- DELETE of the job's own row, which takes the rows that refer to it: ON DELETE CASCADE of
-- internal/storage/migrations/001_init.sql, with foreign keys on (internal/storage/db.go).
unfoldable pub delete_job : Bytes → List Table → Jobs → Database
delete_job id tables jobs = record {
  tables = if any (has_id id) jobs then map (without_job id) tables else tables;
  jobs = keep (λ j. not (has_id id j)) jobs;
}

unfoldable pub purge_job : ℕ → Bytes → Database → Option Database
purge_job fuel id db = do
  tables ← purge_listed fuel id purge_tables db.tables
  some (delete_job id tables db.jobs)
