-- ===== src/Storage/Claims.antt =====
-- A queued job is started once (UpdateJobStarted in internal/storage/jobs.go).
use seo_crawler_mcp.Prelude.{
  ℕ, ◌≤◌, true, false, [], ◌∷◌, Bytes, bytes_eq, bytes_eq_iff, any, Bool-cases, ◌≡◌, refl, sym,
  subst, inl, inr, arith,
}
use seo_crawler_mcp.Prelude.Result.{ok, err}
use seo_crawler_mcp.Storage.Jobs.{
  running, CrawlJob, Jobs, job_not_found, not_queued, update_where, count_where, has_id, get_job,
  is_queued_with, start_row, update_job_started, why_not_started,
}
use seo_crawler_mcp.Storage.Table.{started, started_not_queued}

get_job_missing :
    (id : Bytes) (js : Jobs) → any (has_id id) js ≡ false → get_job js id ≡ err job_not_found
unfolding get_job
get_job_missing id [] h = refl
get_job_missing id (j ∷ js) h = ground (arith, h, get_job_missing id js)

no_count_left :
    (id : Bytes) (js : Jobs) → any (is_queued_with id) js ≡ true → 1 ≤ count_where (has_id id) js
unfolding is_queued_with
no_count_left id [] h = absurd (cc h)
no_count_left id (j ∷ js) h = ground (arith, h, no_count_left id js)

get_job-started :
    (id : Bytes) (now : ℕ) (js : Jobs)
    → count_where (has_id id) js ≤ 1
    → any (is_queued_with id) js ≡ true
    → (j : CrawlJob) × (get_job js id ≡ ok j)
      × (get_job (started id now js) id ≡ ok (start_row now j))
unfolding get_job update_where is_queued_with has_id start_row
get_job-started id now [] unique waiting = absurd (cc waiting)
get_job-started id now (j ∷ js) unique waiting = elim (Bool-cases (bytes_eq j.id id)) [
  | inr other ↦
      let (k, before, after) =
        get_job-started id now js (ground (arith, other, unique))
          (ground (arith, other, waiting)) in
      (k, ground (arith, other, before), ground (arith, other, after))
  | inl same ↦ (j, ground (arith, same), ground (arith, same, waiting, unique, no_count_left id js))
]

get_job_other :
    (id other : Bytes) (now : ℕ) (js : Jobs)
    → bytes_eq id other ≡ false
    → get_job (started id now js) other ≡ get_job js other
unfolding get_job update_where is_queued_with has_id start_row
get_job_other id other now [] apart = refl
get_job_other id other now (j ∷ js) apart = ground (
  arith,
  apart,
  get_job_other id other now js apart,
  bytes_eq_iff j.id id,
  bytes_eq_iff j.id other,
  bytes_eq_iff id other,
)

-- Before UpdateJobStarted succeeds the job is queued.
was_queued :
    (id : Bytes) (now : ℕ) (js js' : Jobs)
    → update_job_started id now js ≡ ok js'
    → (any (is_queued_with id) js ≡ true) × (js' ≡ started id now js)
unfolding update_job_started
was_queued id now js js' done = (ground (arith, done), ground (arith, done))

-- Where the ids of the jobs are all different and UpdateJobStarted has started a job, the job is the
-- one that it read before, running from that time; each other job is read as before; and any later
-- attempt to start the job fails and says that it is running.
pub update_job_started_once :
    (id : Bytes) (now later : ℕ) (js js' : Jobs)
    → count_where (has_id id) js ≤ 1
    → update_job_started id now js ≡ ok js'
    → ((j : CrawlJob) × (get_job js id ≡ ok j) × (get_job js' id ≡ ok (start_row now j)))
      × (update_job_started id later js' ≡ err (not_queued running))
      × ((other : Bytes) → bytes_eq id other ≡ false → get_job js' other ≡ get_job js other)
unfolding update_job_started why_not_started start_row
update_job_started_once id now later js js' unique done =
    let (waiting, same) = was_queued id now js js' done in
    let (j, before, after) = get_job-started id now js unique waiting in
    subst
      (λ t.
        ((k : CrawlJob) × (get_job js id ≡ ok k) × (get_job t id ≡ ok (start_row now k)))
        × (update_job_started id later t ≡ err (not_queued running))
        × ((other : Bytes) → bytes_eq id other ≡ false → get_job t other ≡ get_job js other))
      (sym same)
      (
        (j, before, after),
        ground (arith, started_not_queued id now js, after),
        λ other apart. get_job_other id other now js apart,
      )
