-- ===== src/HttpServer/Queue/Starts.antt =====
-- The steps of handleCrawl, queueWorker and handleJobCancel keep what holds of the server.
use seo_crawler_mcp.Prelude.{
  ℕ, ◌<◌, ◌≤◌, true, false, none, some, List, [], ◌∷◌, Bytes, codes, bytes_eq, bytes_eq_iff, leb,
  length, any, Bool-cases, Option-cases, ◌≡◌, sym, subst, inl, inr, arith,
}
use seo_crawler_mcp.Prelude.Result.{ok}
use seo_crawler_mcp.Storage.Jobs.{
  CrawlJob, Jobs, is_queued_with, update_job_started, count_running_jobs, next_queued_job,
}
use seo_crawler_mcp.HttpServer.Queue.{launched, Run, Server, launch, queue_worker}
use seo_crawler_mcp.Storage.Table.{
  started, started_running, started_queued, started_not_queued, started_more, started_ids,
  started_known,
}
use seo_crawler_mcp.Storage.Queries.{
  next_queued_none, next_queued_some, running_of_count, known_of_queued,
}
use seo_crawler_mcp.HttpServer.Queue.Invariant.{is_run_of, is_open, covers, IsSound, IsKept}

abbrev pub new_run : Bytes → Run
new_run id = record { job_id = id; phase = launched }

-- A queued job that is started, with its call, while there is room for one more.
pub start-IsSound :
    (max : ℕ) (id : Bytes) (now : ℕ) (js : Jobs) (runs : List Run)
    → IsSound max js runs
    → any (is_queued_with id) js ≡ true
    → count_running_jobs (codes "crawl") js < max
    → IsSound max (started id now js) (new_run id ∷ runs)
unfolding is_run_of covers is_open
start-IsSound max id now js runs sound waiting room = record {
  bounded = omega (arith, room, started_more id now js (codes "crawl"), sound.unique id);
  unique = λ i. omega (arith, sound.unique i, started_ids id now js i);
  single = λ i. ground (arith, same i, sound.single i, sound.idle i, waiting);
  idle = λ i h.
      ground
        (arith, same i, sound.idle i, started_queued id now js i, h, started_not_queued id now js);
  known = λ i h.
      ground
        (arith, same i, sound.known i, h, started_known id now js i, known_of_queued id js waiting);
  covered = λ i h. ground (arith, h, started_running id now js i, sound.covered i);
}
  where
    same : (i : Bytes) → (bytes_eq id i ≡ true) → id ≡ i
    same i = (bytes_eq_iff id i).0

pub some_run : (id : Bytes) (runs : List Run) → any (covers id) runs ≡ true → 0 < length runs
some_run id [] h = absurd (cc h)
some_run id (r ∷ runs) h = omega arith

-- While a crawl job runs there is a call.
pub busy :
    (max : ℕ) (js : Jobs) (runs : List Run)
    → IsSound max js runs
    → 0 < count_running_jobs (codes "crawl") js
    → 0 < length runs
busy max js runs sound h =
    let (id, found) = running_of_count (codes "crawl") js h in
    some_run id runs (sound.covered id found)

abbrev pub awake : Server → Server
awake s = record s { signal = false }

queue_worker_full :
    (max now : ℕ) (s : Server)
    → max ≤ count_running_jobs (codes "crawl") s.jobs
    → queue_worker max now s ≡ awake s
unfolding queue_worker
queue_worker_full max now s full = ground (arith, full)

queue_worker_idle :
    (max now : ℕ) (s : Server)
    → count_running_jobs (codes "crawl") s.jobs < max
    → next_queued_job s.jobs ≡ none
    → queue_worker max now s ≡ awake s
unfolding queue_worker
queue_worker_idle max now s room empty = ground (arith, room, empty)

pub update_job_started_ok :
    (id : Bytes) (now : ℕ) (js : Jobs)
    → any (is_queued_with id) js ≡ true
    → update_job_started id now js ≡ ok (started id now js)
unfolding update_job_started
update_job_started_ok id now js waiting = ground (arith, waiting)

abbrev pub launched_from : ℕ → Bytes → Server → Server
launched_from now id s = launch id (record (awake s) { jobs = started id now s.jobs })

pub queue_worker_starts :
    (max now : ℕ) (s : Server) (job : CrawlJob)
    → count_running_jobs (codes "crawl") s.jobs < max
    → next_queued_job s.jobs ≡ some job
    → queue_worker max now s ≡ launched_from now job.id s
unfolding queue_worker
queue_worker_starts max now s job room next =
    ground (
      arith,
      room,
      next,
      update_job_started_ok job.id now s.jobs (next_queued_some s.jobs job next),
    )

pub queue_worker-IsKept :
    (max now : ℕ) (s : Server) → 0 < max → IsKept max s → IsKept max (queue_worker max now s)
unfolding launch
queue_worker-IsKept max now s positive (sound, awaited) =
    elim (Bool-cases (leb max (count_running_jobs (codes "crawl") s.jobs))) [
      | inl above ↦
          let full : max ≤ count_running_jobs (codes "crawl") s.jobs = ground (arith, above) in
          subst (IsKept max) (sym (queue_worker_full max now s full))
            (sound, λ h. inr (busy max s.jobs s.runs sound (omega (arith, full, positive))))
      | inr below ↦
          let room : count_running_jobs (codes "crawl") s.jobs < max = ground (arith, below) in
          elim (Option-cases (next_queued_job s.jobs)) [
            | inl empty ↦
                subst (IsKept max) (sym (queue_worker_idle max now s room empty))
                  (sound, λ h. absurd (cc (h, next_queued_none s.jobs empty)))
            | inr (job, next) ↦
                subst (IsKept max) (sym (queue_worker_starts max now s job room next)) (
                  start-IsSound max job.id now s.jobs s.runs sound
                      (next_queued_some s.jobs job next) room,
                  λ h. inr (omega arith),
                )
          ]
    ]
