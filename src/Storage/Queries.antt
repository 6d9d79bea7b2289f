-- ===== src/Storage/Queries.antt =====
-- What the queries on the table of jobs say of its rows.
use seo_crawler_mcp.Prelude.{
  ◌<◌, Bool, true, false, none, some, [], ◌∷◌, Bytes, bytes_eq_refl, any, Bool-cases, Option-cases,
  ◌≡◌, refl, ◌⊎◌, inl, inr, arith,
}
use seo_crawler_mcp.Storage.Jobs.{
  queued, running, CrawlJob, Jobs, status_eq, has_id, is_queued_with, is_active, is_running,
  count_active_jobs, count_running_jobs, older, next_queued_job,
}
use seo_crawler_mcp.Storage.Table.{is_running_with}

-- The first queued job is one, and there is one if a job is queued.
unfoldable pub is_queued : CrawlJob → Bool
is_queued j = status_eq j.status queued

pub next_queued_none : (js : Jobs) → next_queued_job js ≡ none → any is_queued js ≡ false
unfolding next_queued_job is_queued
next_queued_none [] h = refl
next_queued_none (j ∷ js) h = ground (arith, h, next_queued_none js)

pub next_queued_some :
    (js : Jobs) (job : CrawlJob)
    → next_queued_job js ≡ some job
    → any (is_queued_with job.id) js ≡ true
unfolding next_queued_job is_queued_with has_id older
next_queued_some [] job h = absurd (cc h)
next_queued_some (j ∷ js) job h = elim (Bool-cases (status_eq j.status queued)) [
  | inr other ↦ ground (arith, h, other, next_queued_some js job)
  | inl is_one ↦ elim (Option-cases (next_queued_job js)) [
    | inl last ↦ ground (arith, h, is_one, last, bytes_eq_refl job.id)
    | inr (k, later) ↦
        let found = next_queued_some js k later in
        ground (arith, h, is_one, later, found, bytes_eq_refl job.id)
  ]
]

-- Where jobs are counted, one of them has the status.
pub running_of_count :
    (t : Bytes) (js : Jobs)
    → 0 < count_running_jobs t js
    → (id : Bytes) × (any (is_running_with id) js ≡ true)
unfolding count_running_jobs is_running is_running_with has_id
running_of_count t [] h = absurd (omega arith)
running_of_count t (j ∷ js) h = elim (Bool-cases (status_eq j.status running)) [
  | inl yes_running ↦ (j.id, ground (arith, yes_running, bytes_eq_refl j.id))
  | inr other ↦
      let (id, found) = running_of_count t js (ground (arith, h, other)) in
      (id, ground (arith, found))
]

pub active_of_count :
    (t : Bytes) (js : Jobs)
    → 0 < count_active_jobs t js
    → (any is_queued js ≡ true) ⊎ ((id : Bytes) × (any (is_running_with id) js ≡ true))
unfolding count_active_jobs is_active is_running_with is_queued has_id
active_of_count t [] h = absurd (omega arith)
active_of_count t (j ∷ js) h = elim (Bool-cases (status_eq j.status queued)) [
  | inl waiting ↦ inl (ground (arith, waiting))
  | inr other ↦ elim (Bool-cases (status_eq j.status running)) [
    | inl going ↦ inr (j.id, ground (arith, going, bytes_eq_refl j.id))
    | inr neither ↦ elim (active_of_count t js (ground (arith, h, other, neither))) [
      | inl waiting ↦ inl (ground (arith, waiting))
      | inr (id, found) ↦ inr (id, ground (arith, found))
    ]
  ]
]

-- A queued job has an id.
pub queued_id :
    (js : Jobs) → any is_queued js ≡ true → (id : Bytes) × (any (is_queued_with id) js ≡ true)
unfolding is_queued is_queued_with has_id
queued_id [] h = absurd (cc h)
queued_id (j ∷ js) h = elim (Bool-cases (status_eq j.status queued)) [
  | inl waiting ↦ (j.id, ground (arith, waiting, bytes_eq_refl j.id))
  | inr other ↦
      let (id, found) = queued_id js (ground (arith, h, other)) in (id, ground (arith, found))
]

pub is_queued_of_id :
    (id : Bytes) (js : Jobs) → any (is_queued_with id) js ≡ true → any is_queued js ≡ true
unfolding is_queued is_queued_with
is_queued_of_id id [] h = absurd (cc h)
is_queued_of_id id (j ∷ js) h = ground (arith, h, is_queued_of_id id js)

pub known_of_queued :
    (id : Bytes) (js : Jobs) → any (is_queued_with id) js ≡ true → any (has_id id) js ≡ true
unfolding is_queued_with
known_of_queued id [] h = absurd (cc h)
known_of_queued id (j ∷ js) h = ground (arith, h, known_of_queued id js)

pub running_of_row :
    (id : Bytes) (js : Jobs) → any (has_id id) js ≡ false → any (is_running_with id) js ≡ false
unfolding is_running_with
running_of_row id [] h = refl
running_of_row id (j ∷ js) h = ground (arith, h, running_of_row id js)
