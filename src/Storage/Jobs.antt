-- ===== src/Storage/Jobs.antt =====
-- The statements of internal/storage/jobs.go on the table crawl_jobs. The table is the list of its
-- rows; a statement is a function on it, and an error of the database itself is not modelled. Times are
-- milliseconds: the text format of the source sorts as the time does. The generated id and the current
-- time are arguments.
use seo_crawler_mcp.Prelude.{
  ℕ, ◌+◌, Bool, true, false, not, ◌&&◌, ◌||◌, Option, none, some, List, [], ◌∷◌, ◌++◌, Bytes, codes,
  bytes_eq, if◌then◌else◌, ltb, leb, length, any, keep, take, drop,
}
use seo_crawler_mcp.Prelude.Result.{Result, ok, err}
use mathlib.Core.List.{map}

pub data Status : Type 0 where
  queued running cancelling cancelled failed completed deleting : Status

pub record CrawlJob : Type 0 where
  pub id : Bytes
  pub job_type : Bytes
  pub status : Status
  pub config_json : Bytes
  pub seed_urls : Bytes
  pub created_at : ℕ
  pub started_at : Option ℕ
  pub finished_at : Option ℕ
  pub error : Option Bytes
  pub pages_crawled : ℕ
  pub urls_discovered : ℕ
  pub issues_found : ℕ
  pub ttl_expires_at : Option ℕ

abbrev pub Jobs : Type 0
Jobs = List CrawlJob

pub data JobError : Type 0 where
  job_not_found id_taken : JobError
  not_queued : Status → JobError

unfoldable pub status_eq : Status → Status → Bool
status_eq queued queued = true
status_eq running running = true
status_eq cancelling cancelling = true
status_eq cancelled cancelled = true
status_eq failed failed = true
status_eq completed completed = true
status_eq deleting deleting = true
status_eq _ _ = false

-- UPDATE … WHERE: the rows that the test selects are changed; how many these are.
unfoldable pub update_where : (CrawlJob → Bool) → (CrawlJob → CrawlJob) → Jobs → Jobs
update_where p f [] = []
update_where p f (j ∷ js) = let rest = update_where p f js in if p j then f j ∷ rest else j ∷ rest

abbrev pub count_where : (CrawlJob → Bool) → Jobs → ℕ
count_where p js = length (keep p js)

unfoldable pub has_id : Bytes → CrawlJob → Bool
has_id id j = bytes_eq j.id id

unfoldable pub get_job : Jobs → Bytes → Result JobError CrawlJob
get_job [] id = err job_not_found
get_job (j ∷ js) id = let later = get_job js id in if has_id id j then ok j else later

-- INSERT with the columns' defaults.
unfoldable pub new_row : Bytes → Bytes → Bytes → Bytes → Option ℕ → ℕ → CrawlJob
new_row id job_type config_json seed_urls ttl now = record {
  id = id;
  job_type = job_type;
  status = queued;
  config_json = config_json;
  seed_urls = seed_urls;
  created_at = now;
  started_at = none;
  finished_at = none;
  error = none;
  pages_crawled = 0;
  urls_discovered = 0;
  issues_found = 0;
  ttl_expires_at = ttl;
}

unfoldable pub insert_row : CrawlJob → Jobs → Result JobError (Jobs × CrawlJob)
insert_row row js = if any (has_id row.id) js then err id_taken else ok (js ++ row ∷ [], row)

unfoldable pub create_job :
    Bytes → ℕ → Bytes → Bytes → Bytes → Jobs → Result JobError (Jobs × CrawlJob)
create_job id now job_type config_json seed_urls js =
    insert_row (new_row id job_type config_json seed_urls none now) js

unfoldable pub create_job_with_ttl :
    Bytes → ℕ → Bytes → Bytes → Bytes → ℕ → Jobs → Result JobError (Jobs × CrawlJob)
create_job_with_ttl id now job_type config_json seed_urls ttl js =
    insert_row (new_row id job_type config_json seed_urls (some (now + ttl)) now) js

-- An update by id, with the error for no row.
unfoldable pub update_job : Bytes → (CrawlJob → CrawlJob) → Jobs → Result JobError Jobs
update_job id f js =
    if any (has_id id) js then ok (update_where (has_id id) f js) else err job_not_found

unfoldable pub update_job_status : Bytes → Status → Jobs → Result JobError Jobs
update_job_status id status = update_job id (λ j. record j { status = status })

unfoldable pub update_job_finished : Bytes → ℕ → Status → Option Bytes → Jobs → Result JobError Jobs
update_job_finished id now status msg =
    update_job id (λ j. record j { status = status; finished_at = some now; error = msg })

unfoldable pub update_job_counters : Bytes → ℕ → ℕ → ℕ → Jobs → Result JobError Jobs
update_job_counters id pages urls issues =
    update_job id
      (λ j. record j { pages_crawled = pages; urls_discovered = urls; issues_found = issues })

unfoldable pub is_queued_with : Bytes → CrawlJob → Bool
is_queued_with id j = has_id id j && status_eq j.status queued

unfoldable pub start_row : ℕ → CrawlJob → CrawlJob
start_row now j = record j { status = running; started_at = some now }

-- The error for a job that was not queued, from reading it again.
unfoldable pub why_not_started : Result JobError CrawlJob → JobError
why_not_started (err _) = job_not_found
why_not_started (ok j) = not_queued j.status

unfoldable pub update_job_started : Bytes → ℕ → Jobs → Result JobError Jobs
update_job_started id now js =
    if any (is_queued_with id) js
    then ok (update_where (is_queued_with id) (start_row now) js)
    else err (why_not_started (get_job js id))

-- ORDER BY created_at DESC.
unfoldable pub insert_newest : CrawlJob → Jobs → Jobs
insert_newest j [] = j ∷ []
insert_newest j (k ∷ ks) =
    let rest = insert_newest j ks in if ltb k.created_at j.created_at then j ∷ k ∷ ks else k ∷ rest

unfoldable pub newest_first : Jobs → Jobs
newest_first [] = []
newest_first (j ∷ js) = insert_newest j (newest_first js)

unfoldable pub is_visible : CrawlJob → Bool
is_visible j = not (status_eq j.status deleting)

-- The limit is `none` where the source has one that is not positive.
unfoldable pub list_jobs_paginated : Option ℕ → ℕ → Jobs → Jobs
list_jobs_paginated none offset js = newest_first (keep is_visible js)
list_jobs_paginated (some limit) offset js =
    take limit (drop offset (newest_first (keep is_visible js)))

unfoldable pub list_jobs : Jobs → Jobs
list_jobs js = list_jobs_paginated none 0 js

unfoldable pub count_jobs : Jobs → ℕ
count_jobs js = count_where is_visible js

unfoldable pub is_active : Bytes → CrawlJob → Bool
is_active job_type j =
    bytes_eq j.job_type job_type && (status_eq j.status queued || status_eq j.status running)

unfoldable pub count_active_jobs : Bytes → Jobs → ℕ
count_active_jobs job_type js = count_where (is_active job_type) js

unfoldable pub is_running : Bytes → CrawlJob → Bool
is_running job_type j = bytes_eq j.job_type job_type && status_eq j.status running

unfoldable pub count_running_jobs : Bytes → Jobs → ℕ
count_running_jobs job_type js = count_where (is_running job_type) js

unfoldable pub older : CrawlJob → Option CrawlJob → CrawlJob
older j none = j
older j (some k) = if ltb k.created_at j.created_at then k else j

unfoldable pub next_queued_job : Jobs → Option CrawlJob
next_queued_job [] = none
next_queued_job (j ∷ js) =
    let later = next_queued_job js in
    if status_eq j.status queued then some (older j later) else later

unfoldable pub count_jobs_created_since : ℕ → Jobs → ℕ
count_jobs_created_since since js = count_where (λ j. leb since j.created_at) js

unfoldable pub is_orphaned : CrawlJob → Bool
is_orphaned j = status_eq j.status running || status_eq j.status cancelling

unfoldable pub mark_orphaned_jobs_failed : ℕ → Bytes → Jobs → Jobs × ℕ
mark_orphaned_jobs_failed now reason js = (
  update_where is_orphaned
      (λ j. record j { status = failed; finished_at = some now; error = some reason }) js,
  count_where is_orphaned js,
)

unfoldable pub resume_pending_purges : Jobs → List Bytes
resume_pending_purges js = map (λ j. j.id) (keep (λ j. status_eq j.status deleting) js)

unfoldable pub is_expired : ℕ → CrawlJob → Bool
is_expired now j =
    bytes_eq j.job_type (codes "analyze")
    && elim j.ttl_expires_at [ none ↦ false | some at ↦ ltb at now ]

unfoldable pub purge_expired_analyze_jobs : ℕ → Jobs → Jobs × ℕ
purge_expired_analyze_jobs now js =
    (keep (λ j. not (is_expired now j)) js, count_where (is_expired now) js)
