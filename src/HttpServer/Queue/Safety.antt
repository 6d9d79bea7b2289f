-- ===== src/HttpServer/Queue/Safety.antt =====
-- What holds of the server whatever steps it has taken since it started.
use seo_crawler_mcp.Prelude.{
  ℕ, ◌<◌, ◌≤◌, true, false, some, [], ◌∷◌, Bytes, codes, any, Option-cases, ◌≡◌, refl, subst, inl,
  inr, arith,
}
use seo_crawler_mcp.Prelude.Result.{ok, err}
use seo_crawler_mcp.Storage.Jobs.{
  CrawlJob, Jobs, status_eq, update_where, has_id, is_orphaned, mark_orphaned_jobs_failed,
  is_running, is_queued_with, count_where, count_running_jobs, next_queued_job, get_job,
}
use seo_crawler_mcp.HttpServer.Queue.{
  Server, queue_worker, Step, crawl_posted, worker_wakes, run_goes_on, cancel_asked, cancel_done,
  Reach, start, then_step, cancel_reads,
}
use seo_crawler_mcp.Storage.Table.{is_running_with}
use seo_crawler_mcp.Storage.Queries.{is_queued, next_queued_none}
use seo_crawler_mcp.HttpServer.Queue.Invariant.{count_runs, IsSound, IsKept}
use seo_crawler_mcp.HttpServer.Queue.Moves.{run_moves-IsKept, covers_counted}
use seo_crawler_mcp.HttpServer.Queue.Starts.{
  busy, queue_worker-IsKept, queue_worker_starts, launched_from,
}
use seo_crawler_mcp.HttpServer.Queue.Posts.{handle_crawl-IsKept}
use seo_crawler_mcp.HttpServer.Queue.Cancels.{cancel_writes-IsKept}

-- The server once main has marked the jobs of an earlier process as failed.
unfoldable pub boot : ℕ → Bytes → Jobs → Server
boot now reason js = record {
  jobs = (mark_orphaned_jobs_failed now reason js).0;
  signal = true;
  runs = [];
  cancels = [];
}

abbrev pub HasUniqueIds : Jobs → Type 0
HasUniqueIds js = (id : Bytes) → count_where (has_id id) js ≤ 1

marked_none :
    (now : ℕ) (reason : Bytes) (js : Jobs)
    → count_running_jobs (codes "crawl") (mark_orphaned_jobs_failed now reason js).0 ≡ 0
unfolding mark_orphaned_jobs_failed count_running_jobs is_running update_where is_orphaned status_eq
marked_none now reason [] = refl
marked_none now reason (j ∷ js) = ground (arith, marked_none now reason js)

marked_idle :
    (now : ℕ) (reason : Bytes) (js : Jobs) (id : Bytes)
    → any (is_running_with id) (mark_orphaned_jobs_failed now reason js).0 ≡ false
unfolding mark_orphaned_jobs_failed is_running_with update_where is_orphaned status_eq
marked_idle now reason [] id = refl
marked_idle now reason (j ∷ js) id = ground (arith, marked_idle now reason js id)

marked_ids :
    (now : ℕ) (reason : Bytes) (js : Jobs) (id : Bytes)
    → count_where (has_id id) (mark_orphaned_jobs_failed now reason js).0
      ≡ count_where (has_id id) js
unfolding mark_orphaned_jobs_failed update_where has_id
marked_ids now reason [] id = refl
marked_ids now reason (j ∷ js) id = ground (arith, marked_ids now reason js id)

boot-IsKept :
    (max now : ℕ) (reason : Bytes) (js : Jobs) → HasUniqueIds js → IsKept max (boot now reason js)
unfolding boot
boot-IsKept max now reason js unique = (
  record {
    bounded = omega (arith, marked_none now reason js);
    unique = λ id. omega (arith, unique id, marked_ids now reason js id);
    single = λ id. omega arith;
    idle = λ id h. refl;
    known = λ id h. absurd (omega (arith, h));
    covered = λ id h. absurd (cc (h, marked_idle now reason js id));
  },
  λ h. inl refl,
)

cancel_reads-IsKept :
    (max : ℕ) (id : Bytes) (s : Server) → IsKept max s → IsKept max (cancel_reads id s)
unfolding cancel_reads
cancel_reads-IsKept max id s kept =
    elim (get_job s.jobs id)
      as (λ found. IsKept max (elim found [
        | err _ ↦ s
        | ok j ↦ record s { cancels = record { job_id = id; seen = j.status } ∷ s.cancels }
      ])) [ err _ ↦ kept | ok j ↦ kept ]

Step-IsKept : (max : ℕ) → 0 < max → {s t : Server} → Step max s t → IsKept max s → IsKept max t
Step-IsKept max positive (crawl_posted s id now config_json seed_urls) kept =
    handle_crawl-IsKept max id now config_json seed_urls s positive kept
Step-IsKept max positive (worker_wakes s now awoken) kept =
    queue_worker-IsKept max now s positive kept
Step-IsKept max positive (run_goes_on s before r after act now here) kept =
    run_moves-IsKept max before r after act now s (subst (IsSound max s.jobs) here kept.0)
Step-IsKept max positive (cancel_asked s id) kept = cancel_reads-IsKept max id s kept
Step-IsKept max positive (cancel_done s before c after here) kept =
    cancel_writes-IsKept max before c after s kept

Reach-IsKept : (max : ℕ) → 0 < max → {s t : Server} → Reach max s t → IsKept max s → IsKept max t
Reach-IsKept max positive start kept = kept
Reach-IsKept max positive (then_step before step) kept =
    Step-IsKept max positive step (Reach-IsKept max positive before kept)

-- A server that has started with jobs whose ids are all different, and whose limit is positive, never
-- has more rows of crawl jobs with the status running in its table than the limit, whatever its
-- handlers, its queue and its calls of the engine have done in whatever order. A job that is marked
-- cancelling does not count, though its call may be under way still.
pub Reach-bounded :
    (max now : ℕ) (reason : Bytes) (js : Jobs) (s : Server)
    → 0 < max
    → HasUniqueIds js
    → Reach max (boot now reason js) s
    → count_running_jobs (codes "crawl") s.jobs ≤ max
Reach-bounded max now reason js s positive unique reach =
    (Reach-IsKept max positive reach (boot-IsKept max now reason js unique)).0.bounded

-- In such a server a job that is running in the table has exactly one call of runCrawlJob, and a job
-- that is queued has none.
pub Reach-count_runs :
    (max now : ℕ) (reason : Bytes) (js : Jobs) (s : Server) (id : Bytes)
    → 0 < max
    → HasUniqueIds js
    → Reach max (boot now reason js) s
    → (any (is_running_with id) s.jobs ≡ true → count_runs id s.runs ≡ 1)
      × (any (is_queued_with id) s.jobs ≡ true → count_runs id s.runs ≡ 0)
Reach-count_runs max now reason js s id positive unique reach =
    let sound = (Reach-IsKept max positive reach (boot-IsKept max now reason js unique)).0 in
    (
      λ going. omega (arith, sound.single id, covers_counted id s.runs (sound.covered id going)),
      sound.idle id,
    )

-- In such a server, where a job is queued and no call of runCrawlJob is under way, the queue has its
-- signal, and the round of queueWorker that takes it starts the next queued job.
pub Reach-queue_worker :
    (max now later : ℕ) (reason : Bytes) (js : Jobs) (s : Server)
    → 0 < max
    → HasUniqueIds js
    → Reach max (boot now reason js) s
    → any is_queued s.jobs ≡ true
    → s.runs ≡ []
    → (s.signal ≡ true)
      × ((job : CrawlJob) × (next_queued_job s.jobs ≡ some job)
          × (queue_worker max later s ≡ launched_from later job.id s))
Reach-queue_worker max now later reason js s positive unique reach waiting quiet =
    let kept = Reach-IsKept max positive reach (boot-IsKept max now reason js unique) in
    (
      elim (kept.1 waiting) [
        | inl signal ↦ signal
        | inr called ↦ absurd (ground (arith, called, quiet))
      ],
      elim (Option-cases (next_queued_job s.jobs)) [
        | inl empty ↦ absurd (cc (waiting, next_queued_none s.jobs empty))
        | inr (job, next) ↦ (
          job,
          next,
          queue_worker_starts max later s job
              (ground (arith, busy max s.jobs s.runs kept.0, quiet, positive)) next,
        )
      ],
    )
