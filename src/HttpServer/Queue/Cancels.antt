-- ===== src/HttpServer/Queue/Cancels.antt =====
-- The steps of handleJobCancel keep what holds of the server.
use seo_crawler_mcp.Prelude.{
  ℕ, true, false, List, Bytes, any, Bool-cases, ◌≡◌, refl, sym, ◌∙◌, subst, inl, inr, arith,
}
use seo_crawler_mcp.Storage.Jobs.{
  Status, queued, running, cancelled, cancelling, deleting, failed, completed, CrawlJob, Jobs,
  status_eq, update_where, has_id, update_job, update_job_status,
}
use seo_crawler_mcp.HttpServer.Queue.{
  Run, Cancel, Server, status_after_cancel, set_status, cancel_writes,
}
use seo_crawler_mcp.HttpServer.Queue.Invariant.{
  IsSound, IsKept, Shrinks, Shrinks-refl, update_where-Shrinks, IsAwaited-Shrinks,
}

cancelled_row : Status → CrawlJob → CrawlJob
cancelled_row st j = record j { status = st }

set_status_found :
    (id : Bytes) (st : Status) (js : Jobs)
    → any (has_id id) js ≡ true
    → set_status id st js ≡ update_where (has_id id) (cancelled_row st) js
unfolding set_status update_job_status update_job cancelled_row
set_status_found id st js found = ground (arith, found)

set_status_missing :
    (id : Bytes) (st : Status) (js : Jobs) → any (has_id id) js ≡ false → set_status id st js ≡ js
unfolding set_status update_job_status update_job
set_status_missing id st js missing = ground (arith, missing)

set_status-Shrinks :
    (id : Bytes) (st : Status) (js : Jobs)
    → status_eq st queued ≡ false
    → status_eq st running ≡ false
    → Shrinks js (set_status id st js)
unfolding cancelled_row
set_status-Shrinks id st js not_queued not_running = elim (Bool-cases (any (has_id id) js)) [
  | inr missing ↦ subst (Shrinks js) (sym (set_status_missing id st js missing)) (Shrinks-refl js)
  | inl found ↦ subst (Shrinks js) (sym (set_status_found id st js found)) (
      update_where-Shrinks st (has_id id) (cancelled_row st) js (λ j. (refl, refl, refl)) not_queued
        not_running)
]

shrunk :
    (max : ℕ) (js js' : Jobs) (runs : List Run)
    → IsSound max js runs
    → Shrinks js js'
    → IsSound max js' runs
shrunk max js js' runs sound shrinks = record {
  bounded = omega (arith, sound.bounded, shrinks.fewer);
  unique = λ i. omega (arith, sound.unique i, shrinks.ids i);
  single = sound.single;
  idle = λ i h. sound.idle i (shrinks.queued_only i h);
  known = λ i h. shrinks.rows i ∙ sound.known i h;
  covered = λ i h. sound.covered i (shrinks.running_only i h);
}

status_after_cancel_quiet :
    (st : Status)
    → (status_eq (status_after_cancel st) queued ≡ false)
      × (status_eq (status_after_cancel st) running ≡ false)
unfolding status_after_cancel status_eq
status_after_cancel_quiet queued = (refl, refl)
status_after_cancel_quiet running = (refl, refl)
status_after_cancel_quiet cancelling = (refl, refl)
status_after_cancel_quiet cancelled = (refl, refl)
status_after_cancel_quiet failed = (refl, refl)
status_after_cancel_quiet completed = (refl, refl)
status_after_cancel_quiet deleting = (refl, refl)

pub cancel_writes-IsKept :
    (max : ℕ) (before : List Cancel) (c : Cancel) (after : List Cancel) (s : Server)
    → IsKept max s
    → IsKept max (cancel_writes before c after s)
unfolding cancel_writes
cancel_writes-IsKept max before c after s (sound, awaited) =
    let quiet = status_after_cancel_quiet c.seen in
    let shrinks = set_status-Shrinks c.job_id (status_after_cancel c.seen) s.jobs quiet.0 quiet.1 in
    (
      shrunk max s.jobs (set_status c.job_id (status_after_cancel c.seen) s.jobs) s.runs sound
          shrinks,
      IsAwaited-Shrinks s (set_status c.job_id (status_after_cancel c.seen) s.jobs) shrinks awaited,
    )
