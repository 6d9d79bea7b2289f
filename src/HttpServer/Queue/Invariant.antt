-- ===== src/HttpServer/Queue/Invariant.antt =====
-- What holds of the server at every time, and that it does at the start.
use seo_crawler_mcp.Prelude.{
  ℕ, ◌<◌, ◌≤◌, Bool, true, false, ◌&&◌, Option, some, List, Bytes, codes, bytes_eq, length, any,
  keep, Bool-cases, ◌≡◌, refl, sym, subst, ◌⊎◌, inl, inr, arith,
}
use seo_crawler_mcp.Storage.Jobs.{
  Status, queued, running, CrawlJob, Jobs, status_eq, update_where, count_where, has_id,
  is_queued_with, count_running_jobs, update_job, update_job_finished,
}
use seo_crawler_mcp.HttpServer.Queue.{
  Phase, launched, crawling, returned, nothing, was_cancelled, has_failed, Run, Server, finish_job,
}
use seo_crawler_mcp.Storage.Table.{
  is_running_with, Relabels, ids_same, known_same, queued_before, running_before, running_fewer,
  settled,
}
use seo_crawler_mcp.Storage.Queries.{is_queued, queued_id, is_queued_of_id, running_of_row}

unfoldable pub is_run_of : Bytes → Run → Bool
is_run_of id r = bytes_eq r.job_id id

abbrev pub count_runs : Bytes → List Run → ℕ
count_runs id runs = length (keep (is_run_of id) runs)

-- The call may still have to write that its job is over.
unfoldable pub is_open : Phase → Bool
is_open launched = true
is_open crawling = true
is_open (returned nothing) = false
is_open (returned (was_cancelled msg)) = true
is_open (returned (has_failed msg)) = true

unfoldable pub covers : Bytes → Run → Bool
covers id r = bytes_eq r.job_id id && is_open r.phase

-- No more jobs run than may at once; ids are not shared, by jobs or by calls; a queued job has no call,
-- a call has a job, and a running job has a call that will end it.
pub record IsSound (max_concurrent : ℕ) (js : Jobs) (runs : List Run) : Type 0 where
  pub bounded : count_running_jobs (codes "crawl") js ≤ max_concurrent
  pub unique : (id : Bytes) → count_where (has_id id) js ≤ 1
  pub single : (id : Bytes) → count_runs id runs ≤ 1
  pub idle : (id : Bytes) → any (is_queued_with id) js ≡ true → count_runs id runs ≡ 0
  pub known : (id : Bytes) → 0 < count_runs id runs → any (has_id id) js ≡ true
  pub covered : (id : Bytes) → any (is_running_with id) js ≡ true → any (covers id) runs ≡ true

-- While a job is queued the queue has a signal, or there is a call, which will signal it.
abbrev pub IsAwaited : Server → Type 0
IsAwaited s = any is_queued s.jobs ≡ true → (s.signal ≡ true) ⊎ (0 < length s.runs)

abbrev pub IsKept : ℕ → Server → Type 0
IsKept max s = IsSound max s.jobs s.runs × IsAwaited s

-- A change of the table that adds no row, queues no job and starts none.
pub record Shrinks (js js' : Jobs) : Type 0 where
  pub ids : (id : Bytes) → count_where (has_id id) js' ≡ count_where (has_id id) js
  pub rows : (id : Bytes) → any (has_id id) js' ≡ any (has_id id) js
  pub queued_only :
      (id : Bytes) → any (is_queued_with id) js' ≡ true → any (is_queued_with id) js ≡ true
  pub running_only :
      (id : Bytes) → any (is_running_with id) js' ≡ true → any (is_running_with id) js ≡ true
  pub fewer : count_running_jobs (codes "crawl") js' ≤ count_running_jobs (codes "crawl") js

pub Shrinks-refl : (js : Jobs) → Shrinks js js
Shrinks-refl js = record {
  ids = λ id. refl;
  rows = λ id. refl;
  queued_only = λ id h. h;
  running_only = λ id h. h;
  fewer = omega arith;
}

pub update_where-Shrinks :
    (st : Status) (p : CrawlJob → Bool) (f : CrawlJob → CrawlJob) (js : Jobs)
    → Relabels st f
    → status_eq st queued ≡ false
    → status_eq st running ≡ false
    → Shrinks js (update_where p f js)
update_where-Shrinks st p f js relabels not_queued not_running = record {
  ids = λ id. ids_same st p f relabels id js;
  rows = λ id. known_same st p f relabels id js;
  queued_only = λ id. queued_before st p f relabels id js not_queued;
  running_only = λ id. running_before st p f relabels id js not_running;
  fewer = running_fewer st p f relabels (codes "crawl") js not_running;
}

finish_row : ℕ → Status → Option Bytes → CrawlJob → CrawlJob
finish_row now st msg j = record j { status = st; finished_at = some now; error = msg }

finish_job_found :
    (id : Bytes) (now : ℕ) (st : Status) (msg : Option Bytes) (js : Jobs)
    → any (has_id id) js ≡ true
    → finish_job id now st msg js ≡ update_where (has_id id) (finish_row now st msg) js
unfolding finish_job update_job_finished update_job finish_row
finish_job_found id now st msg js found = ground (arith, found)

finish_job_missing :
    (id : Bytes) (now : ℕ) (st : Status) (msg : Option Bytes) (js : Jobs)
    → any (has_id id) js ≡ false
    → finish_job id now st msg js ≡ js
unfolding finish_job update_job_finished update_job
finish_job_missing id now st msg js missing = ground (arith, missing)

finish_row-Relabels :
    (now : ℕ) (st : Status) (msg : Option Bytes) → Relabels st (finish_row now st msg)
unfolding finish_row
finish_row-Relabels now st msg j = (refl, refl, refl)

pub finish_job-Shrinks :
    (id : Bytes) (now : ℕ) (st : Status) (msg : Option Bytes) (js : Jobs)
    → status_eq st queued ≡ false
    → status_eq st running ≡ false
    → Shrinks js (finish_job id now st msg js)
      × (any (is_running_with id) (finish_job id now st msg js) ≡ false)
finish_job-Shrinks id now st msg js not_queued not_running =
    let relabels = finish_row-Relabels now st msg in
    elim (Bool-cases (any (has_id id) js)) [
      | inl found ↦
          subst (λ js'. Shrinks js js' × (any (is_running_with id) js' ≡ false))
            (sym (finish_job_found id now st msg js found))
            (
              update_where-Shrinks st (has_id id) (finish_row now st msg) js relabels not_queued
                  not_running,
              settled st (has_id id) (finish_row now st msg) relabels id js (λ j. refl) not_running,
            )
      | inr missing ↦
          subst (λ js'. Shrinks js js' × (any (is_running_with id) js' ≡ false))
            (sym (finish_job_missing id now st msg js missing))
            (Shrinks-refl js, running_of_row id js missing)
    ]

pub IsAwaited-Shrinks :
    (s : Server) (js' : Jobs)
    → Shrinks s.jobs js'
    → IsAwaited s
    → IsAwaited (record s { jobs = js' })
IsAwaited-Shrinks s js' shrinks awaited waiting =
    let (id, found) = queued_id js' waiting in
    awaited (is_queued_of_id id s.jobs (shrinks.queued_only id found))
