-- ===== src/Tests/Queue.antt =====
-- Runs of the queue of crawls of internal/httpserver, and its theorems at inputs.
use seo_crawler_mcp.Prelude.{
  ℕ, ◌≤◌, true, false, none, some, List, [], ◌∷◌, Bytes, codes, bytes_eq, bytes_eq_iff, bytes_mem,
  length, any, ◌≡◌, refl, arith, map,
}
use seo_crawler_mcp.Storage.Jobs.{
  Status, queued, running, cancelling, failed, deleting, CrawlJob, Jobs, status_eq, update_where,
  has_id, get_job, new_row, insert_row, create_job, is_queued_with, start_row, why_not_started,
  update_job_started, update_job, update_job_status, update_job_finished, is_active,
  count_active_jobs, is_running, count_running_jobs, older, next_queued_job, is_orphaned,
  mark_orphaned_jobs_failed,
}
use seo_crawler_mcp.HttpServer.Queue.{
  Run, crawling, returned, nothing, Server, launch, handle_crawl, queue_worker, completes, fails,
  finish_job, run_crawl_job, is_registered, registered_ids, go_on_or_end, run_moves, Cancel,
  cancel_reads, status_after_cancel, set_status, cancel_writes, worker_wakes, Reach, start,
  then_step,
}
use seo_crawler_mcp.Storage.Table.{is_running_with}
use seo_crawler_mcp.Storage.Queries.{is_queued}
use seo_crawler_mcp.HttpServer.Queue.Invariant.{is_run_of, count_runs}
use seo_crawler_mcp.HttpServer.Queue.Starts.{launched_from}
use seo_crawler_mcp.HttpServer.Queue.Safety.{
  boot, HasUniqueIds, Reach-bounded, Reach-count_runs, Reach-queue_worker,
}

queueing : Unit {0}
unfolding bytes_eq bytes_mem status_eq update_where has_id get_job new_row insert_row create_job
    is_queued_with start_row why_not_started update_job_started update_job update_job_status
    update_job_finished is_active count_active_jobs is_running count_running_jobs older
    next_queued_job is_orphaned mark_orphaned_jobs_failed launch handle_crawl queue_worker
    finish_job run_crawl_job is_registered registered_ids go_on_or_end run_moves cancel_reads
    status_after_cancel set_status cancel_writes is_running_with is_queued is_run_of boot
queueing = tt

abbrev crawl : Bytes → ℕ → CrawlJob
crawl id now = record {
  id = id;
  job_type = codes "crawl";
  status = queued;
  config_json = [];
  seed_urls = [];
  created_at = now;
  started_at = none;
  finished_at = none;
  error = none;
  pages_crawled = 0;
  urls_discovered = 0;
  issues_found = 0;
  ttl_expires_at = none;
}

abbrev left_queued : Jobs
left_queued = crawl (codes "a") 5 ∷ crawl (codes "b") 3 ∷ []

abbrev restarted : Server
restarted = boot 7 (codes "r") left_queued

abbrev one_started : Server
one_started = queue_worker 2 10 restarted

-- A restart with two queued jobs and room for both starts one and leaves the queue without a signal.
restart_runs :
    (one_started.signal ≡ false)
    × (length one_started.runs ≡ 1)
    × (count_running_jobs (codes "crawl") one_started.jobs ≡ 1)
    × (any is_queued one_started.jobs ≡ true)
unfolding queueing
restart_runs = (refl, refl, refl, refl)

abbrev call : Run
call = record { job_id = codes "a"; phase = crawling }

abbrev crawling_a : Server
crawling_a = record {
  jobs = record (crawl (codes "a") 5) { status = running } ∷ [];
  signal = false;
  runs = call ∷ [];
  cancels = [];
}

abbrev ended : Run
ended = record { job_id = codes "a"; phase = returned nothing }

abbrev cancel_of : Status → Cancel
cancel_of seen = record { job_id = codes "a"; seen = seen }

-- The engine completes the job after handleJobCancel has read it, and nothing ends the job any more.
abbrev stuck : Server
stuck = cancel_writes [] (cancel_of running) [] (
    run_moves [] ended [] completes 12
      (run_moves [] call [] completes 11 (cancel_reads (codes "a") crawling_a)))

statuses : Server → List Status
statuses s = map (λ j. j.status) s.jobs

stuck_runs : (statuses stuck ≡ cancelling ∷ []) × (stuck.runs ≡ []) × (stuck.cancels ≡ [])
unfolding queueing statuses
stuck_runs = (refl, refl, refl)

-- A job that is deleted between the engine's write of its failure and the one of runCrawlJob is back.
abbrev deleted : Server
deleted =
    cancel_writes [] (cancel_of failed) []
      (cancel_reads (codes "a") (run_moves [] call [] (fails (codes "e")) 11 crawling_a))

deleted_runs :
    (statuses deleted ≡ deleting ∷ [])
    × (map (λ r. statuses (run_moves [] r [] completes 12 deleted)) deleted.runs
        ≡ (failed ∷ []) ∷ [])
unfolding queueing statuses
deleted_runs = (refl, refl)

left_queued-HasUniqueIds : HasUniqueIds left_queued
unfolding has_id
left_queued-HasUniqueIds id =
    ground (arith, bytes_eq_iff (codes "a") id, bytes_eq_iff (codes "b") id)

Reach-one_started : Reach 2 restarted one_started
unfolding boot
Reach-one_started = then_step start (worker_wakes restarted 10 refl)

Reach-bounded_example : count_running_jobs (codes "crawl") one_started.jobs ≤ 2
Reach-bounded_example =
    Reach-bounded 2 7 (codes "r") left_queued one_started (omega arith) left_queued-HasUniqueIds
      Reach-one_started

Reach-count_runs_example :
    (any (is_running_with (codes "b")) one_started.jobs ≡ true
      → count_runs (codes "b") one_started.runs ≡ 1)
    × (any (is_queued_with (codes "b")) one_started.jobs ≡ true
        → count_runs (codes "b") one_started.runs ≡ 0)
Reach-count_runs_example =
    Reach-count_runs 2 7 (codes "r") left_queued one_started (codes "b") (omega arith)
      left_queued-HasUniqueIds Reach-one_started

Reach-queue_worker_example :
    (restarted.signal ≡ true)
    × ((job : CrawlJob) × (next_queued_job restarted.jobs ≡ some job)
        × (queue_worker 2 10 restarted ≡ launched_from 10 job.id restarted))
unfolding queueing
Reach-queue_worker_example =
    Reach-queue_worker 2 7 10 (codes "r") left_queued restarted (omega arith)
      left_queued-HasUniqueIds start refl refl
