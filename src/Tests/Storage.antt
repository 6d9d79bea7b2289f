-- ===== src/Tests/Storage.antt =====
-- Runs of internal/storage on small tables, and its theorems at inputs.
use seo_crawler_mcp.Prelude.{
  ℕ, false, none, some, [], ◌∷◌, Bytes, codes, bytes_eq, bytes_mem, ◌≡◌, refl, arith,
}
use seo_crawler_mcp.Prelude.Result.{ok, err}
use seo_crawler_mcp.Storage.Jobs.{
  queued, running, CrawlJob, Jobs, status_eq, update_where, has_id, get_job, new_row, insert_row,
  create_job, create_job_with_ttl, not_queued, is_queued_with, start_row, why_not_started,
  update_job_started, update_job, update_job_status, update_job_finished, update_job_counters,
  insert_newest, newest_first, is_visible, list_jobs_paginated, list_jobs, count_jobs, is_active,
  count_active_jobs, is_running, count_running_jobs, older, next_queued_job,
  count_jobs_created_since, is_orphaned, mark_orphaned_jobs_failed, resume_pending_purges,
  is_expired, purge_expired_analyze_jobs,
}
use seo_crawler_mcp.Storage.Claims.{update_job_started_once}
use seo_crawler_mcp.Storage.Purge.{
  Row, Database, is_row_of, delete_chunk, purge_table_chunked, purge_if_named, purge_named,
  purge_listed, without_job, delete_job, purge_job,
}
use seo_crawler_mcp.Storage.Purge.Chunks.{purge_job-without}

storing : Unit {0}
unfolding bytes_eq bytes_mem status_eq update_where has_id get_job new_row insert_row create_job
    create_job_with_ttl is_queued_with start_row why_not_started update_job_started update_job
    update_job_status update_job_finished update_job_counters insert_newest newest_first is_visible
    list_jobs_paginated list_jobs count_jobs is_active count_active_jobs is_running
    count_running_jobs older next_queued_job count_jobs_created_since is_orphaned
    mark_orphaned_jobs_failed resume_pending_purges is_expired purge_expired_analyze_jobs is_row_of
    delete_chunk purge_table_chunked purge_if_named purge_named purge_listed without_job delete_job
    purge_job
storing = tt

abbrev crawl : Bytes → ℕ → CrawlJob
crawl id now = record {
  id = id;
  job_type = codes "crawl";
  status = queued;
  config_json = [];
  seed_urls = [];
  created_at = now;
  started_at = none;
  finished_at = none;
  error = none;
  pages_crawled = 0;
  urls_discovered = 0;
  issues_found = 0;
  ttl_expires_at = none;
}

abbrev two_jobs : Jobs
two_jobs = crawl (codes "a") 5 ∷ crawl (codes "b") 3 ∷ []

abbrev a_started : Jobs
a_started =
    record (crawl (codes "a") 5) { status = running; started_at = some 9 }
    ∷ crawl (codes "b") 3
    ∷ []

jobs_run :
    (create_job (codes "b") 3 (codes "crawl") [] [] (crawl (codes "a") 5 ∷ [])
      ≡ ok (two_jobs, crawl (codes "b") 3))
    × (next_queued_job two_jobs ≡ some (crawl (codes "b") 3))
    × (list_jobs two_jobs ≡ two_jobs)
    × (count_active_jobs (codes "crawl") a_started ≡ 2)
    × (count_running_jobs (codes "crawl") a_started ≡ 1)
    × ((mark_orphaned_jobs_failed 10 [] a_started).1 ≡ 1)
unfolding storing
jobs_run = (refl, refl, refl, refl, refl, refl)

update_job_started_once_example :
    ((j : CrawlJob) × (get_job two_jobs (codes "a") ≡ ok j)
      × (get_job a_started (codes "a") ≡ ok (start_row 9 j)))
    × (update_job_started (codes "a") 11 a_started ≡ err (not_queued running))
    × ((other : Bytes)
        → bytes_eq (codes "a") other ≡ false
        → get_job a_started other ≡ get_job two_jobs other)
unfolding storing
update_job_started_once_example =
    update_job_started_once (codes "a") 9 11 two_jobs a_started (omega arith) refl

abbrev page : Bytes → Row
page id = record { job_id = id; content = codes "p" }

abbrev database : Database
database = record {
  tables =
      record {
        name = codes "pages";
        rows = page (codes "a") ∷ page (codes "b") ∷ page (codes "a") ∷ [];
      }
      ∷ record { name = codes "notes"; rows = page (codes "a") ∷ [] }
      ∷ [];
  jobs = two_jobs;
}

abbrev purged : Database
purged = record {
  tables =
      record { name = codes "pages"; rows = page (codes "b") ∷ [] }
      ∷ record { name = codes "notes"; rows = [] }
      ∷ [];
  jobs = crawl (codes "b") 3 ∷ [];
}

purge_runs : purge_job 1 (codes "a") database ≡ some purged
unfolding storing
purge_runs = refl

purge_job-without_example : purge_job 1 (codes "a") database ≡ some purged
unfolding storing
purge_job-without_example =
    purge_job-without 1 (codes "a") database (omega arith, (omega arith, tt)) refl
