-- ===== src/HttpServer/Queue.antt =====
-- How crawl jobs are started and stopped (handleCrawl and handleJobCancel in
-- internal/httpserver/handlers.go, queueWorker and runCrawlJob in server.go, and what
-- internal/engine/engine.go writes to the table). Each critical section of crawlMu is one step; the
-- other statements are a step each. Only the table, the queue's signal and the calls that are under
-- way are kept.
pub mod Invariant
pub mod Moves
pub mod Starts
pub mod Posts
pub mod Cancels
pub mod Safety
use seo_crawler_mcp.Prelude.{
  ℕ, Bool, true, false, Option, none, some, List, [], ◌∷◌, ◌++◌, Bytes, codes, bytes_eq, bytes_mem,
  if◌then◌else◌, ltb, leb, ◌≡◌, ◌<◌,
}
use seo_crawler_mcp.Prelude.Result.{Result, ok, err}
use seo_crawler_mcp.Storage.Jobs.{
  Status, queued, running, cancelling, cancelled, failed, completed, deleting, CrawlJob, Jobs,
  JobError, create_job, get_job, update_job_status, update_job_started, update_job_finished,
  count_active_jobs, count_running_jobs, next_queued_job,
}
use mathlib.Core.List.{map}

-- What a call has yet to write for the error of the engine.
pub data Verdict : Type 0 where
  nothing : Verdict
  was_cancelled has_failed : Bytes → Verdict

-- Where a call of runCrawlJob is: before registerRun, in RunCrawl, or back from it. In RunCrawl several
-- calls may be: the engine's runMu lets one of them crawl while the others wait, and no step says which.
pub data Phase : Type 0 where
  launched crawling : Phase
  returned : Verdict → Phase

pub record Run : Type 0 where
  pub job_id : Bytes
  pub phase : Phase

-- A call of handleJobCancel that has read the job's status and not yet written the new one.
pub record Cancel : Type 0 where
  pub job_id : Bytes
  pub seen : Status

pub record Server : Type 0 where
  pub jobs : Jobs
  pub signal : Bool
  pub runs : List Run
  pub cancels : List Cancel

unfoldable pub launch : Bytes → Server → Server
launch id s = record s { runs = record { job_id = id; phase = launched } ∷ s.runs }

-- The locked block of handleCrawl, with the id and the time that the database gives.
unfoldable pub handle_crawl : ℕ → Bytes → ℕ → Bytes → Bytes → Server → Server
handle_crawl max_concurrent id now config_json seed_urls s =
    elim (create_job id now (codes "crawl") config_json seed_urls s.jobs) [
      | err _ ↦ s
      | ok (js, job) ↦
          if ltb (count_active_jobs (codes "crawl") s.jobs) max_concurrent
          then elim (update_job_started id now js) [
            | err _ ↦ record s { jobs = js }
            | ok js' ↦ launch id (record s { jobs = js' })
          ]
          else record s { jobs = js }
    ]

-- A round of queueWorker, which has taken the signal.
unfoldable pub queue_worker : ℕ → ℕ → Server → Server
queue_worker max_concurrent now s =
    let awake = record s { signal = false } in
    if leb max_concurrent (count_running_jobs (codes "crawl") s.jobs)
    then awake
    else elim (next_queued_job s.jobs) [
      | none ↦ awake
      | some job ↦ elim (update_job_started job.id now s.jobs) [
        | err _ ↦ awake
        | ok js ↦ launch job.id (record awake { jobs = js })
      ]
    ]

-- What RunCrawl does: it ends the job as completed, cancelled or failed, refuses it before it writes
-- anything, or panics.
pub data Engine : Type 0 where
  completes : Engine
  cancels fails refuses panics : Bytes → Engine

unfoldable pub finish_job : Bytes → ℕ → Status → Option Bytes → Jobs → Jobs
finish_job id now status msg js = elim (update_job_finished id now status msg js) [
  | err _ ↦ js
  | ok js' ↦ js'
]

-- The next part of runCrawlJob, with the ids that other calls have registered; without a call when
-- this one ends.
unfoldable pub run_crawl_job : List Bytes → Engine → ℕ → Run → Jobs → Option Phase × Jobs
run_crawl_job registered act now r js = elim r.phase [
  | launched ↦ (if bytes_mem r.job_id registered then none else some crawling, js)
  | crawling ↦ elim act [
    | completes ↦ (some (returned nothing), finish_job r.job_id now completed none js)
    | cancels msg ↦
        (some (returned (was_cancelled msg)), finish_job r.job_id now cancelled (some msg) js)
    | fails msg ↦ (some (returned (has_failed msg)), finish_job r.job_id now failed (some msg) js)
    | refuses msg ↦ (some (returned (has_failed msg)), js)
    | panics msg ↦ (none, finish_job r.job_id now failed (some msg) js)
  ]
  | returned pending ↦ elim pending [
    | nothing ↦ (none, js)
    | was_cancelled msg ↦ (some (returned nothing), finish_job r.job_id now cancelled (some msg) js)
    | has_failed msg ↦ (some (returned nothing), finish_job r.job_id now failed (some msg) js)
  ]
]

unfoldable pub is_registered : Phase → Bool
is_registered launched = false
is_registered _ = true

-- The ids in the map of registered runs.
unfoldable pub registered_ids : List Run → List Bytes
registered_ids [] = []
registered_ids (r ∷ rs) =
    let rest = registered_ids rs in if is_registered r.phase then r.job_id ∷ rest else rest

-- A call that ends signals the queue.
unfoldable pub go_on_or_end : List Run → Run → List Run → Server → Option Phase × Jobs → Server
go_on_or_end before r after s (none, js) = record s {
  jobs = js;
  signal = true;
  runs = before ++ after;
}
go_on_or_end before r after s (some next, js) = record s {
  jobs = js;
  runs = before ++ record r { phase = next } ∷ after;
}

unfoldable pub run_moves : List Run → Run → List Run → Engine → ℕ → Server → Server
run_moves before r after act now s =
    go_on_or_end before r after s
      (run_crawl_job (registered_ids (before ++ after)) act now r s.jobs)

unfoldable pub cancel_reads : Bytes → Server → Server
cancel_reads id s = elim (get_job s.jobs id) [
  | err _ ↦ s
  | ok j ↦ record s { cancels = record { job_id = id; seen = j.status } ∷ s.cancels }
]

-- The status that handleJobCancel writes for the one that it has read.
unfoldable pub status_after_cancel : Status → Status
status_after_cancel queued = cancelled
status_after_cancel running = cancelling
status_after_cancel cancelling = cancelling
status_after_cancel _ = deleting

unfoldable pub set_status : Bytes → Status → Jobs → Jobs
set_status id status js = elim (update_job_status id status js) [ err _ ↦ js | ok js' ↦ js' ]

unfoldable pub cancel_writes : List Cancel → Cancel → List Cancel → Server → Server
cancel_writes before c after s = record s {
  jobs = set_status c.job_id (status_after_cancel c.seen) s.jobs;
  cancels = before ++ after;
}

-- The steps of the server, in any order.
pub data Step (max_concurrent : ℕ) : Server → Server → Type 0 where
  crawl_posted :
      (s : Server) (id : Bytes) (now : ℕ) (config_json seed_urls : Bytes)
      → Step max_concurrent s (handle_crawl max_concurrent id now config_json seed_urls s)
  worker_wakes :
      (s : Server) (now : ℕ)
      → s.signal ≡ true
      → Step max_concurrent s (queue_worker max_concurrent now s)
  run_goes_on :
      (s : Server) (before : List Run) (r : Run) (after : List Run) (act : Engine) (now : ℕ)
      → s.runs ≡ before ++ r ∷ after
      → Step max_concurrent s (run_moves before r after act now s)
  cancel_asked : (s : Server) (id : Bytes) → Step max_concurrent s (cancel_reads id s)
  cancel_done :
      (s : Server) (before : List Cancel) (c : Cancel) (after : List Cancel)
      → s.cancels ≡ before ++ c ∷ after
      → Step max_concurrent s (cancel_writes before c after s)

pub data Reach (max_concurrent : ℕ) (s : Server) : Server → Type 0 where
  start : Reach max_concurrent s s
  then_step :
      {t u : Server} → Reach max_concurrent s t → Step max_concurrent t u → Reach max_concurrent s u
