-- ===== src/HttpServer/Stream.antt =====
-- A stream of a job's progress (streamSession in internal/httpserver/stream.go) with its queries in
-- internal/storage/activity.go. A tick is a step that sees the database as it is then. What is sent is
-- the log of the session; the two counts of a job are of any type, and encoding/json is an argument.
pub mod Feed
use seo_crawler_mcp.Prelude.{
  ℕ, Bool, true, false, not, ◌&&◌, Option, none, some, List, [], ◌∷◌, ◌++◌, Bytes, codes, bytes_eq,
  if◌then◌else◌, ltb, keep, take,
}
use seo_crawler_mcp.Prelude.Int.{ℤ, pos}
use seo_crawler_mcp.Prelude.Result.{ok, err}
use seo_crawler_mcp.Storage.Jobs.{
  Status, queued, running, cancelling, cancelled, failed, completed, deleting, CrawlJob, Jobs,
  get_job,
}
use seo_crawler_mcp.Storage.Paging.{by_id}

-- A fetch with the URL that is joined to it, and a phase event.
pub record ActivityFetch : Type 0 where
  pub id : ℕ
  pub job_id : Bytes
  pub url : Bytes
  pub status_code : ℕ
  pub ttfb_ms : ℕ
  pub fetched_at : Bytes
  pub render_mode : Option Bytes
  pub error : Option Bytes

pub record PhaseEvent : Type 0 where
  pub id : ℕ
  pub job_id : Bytes
  pub event_type : Bytes
  pub timestamp : Bytes
  pub details_json : Option Bytes

pub record ActivityTables (C : Type 0) : Type 0 where
  pub jobs : Jobs
  pub fetches : List ActivityFetch
  pub events : List PhaseEvent
  pub urls_by_status : Bytes → C
  pub issues_by_type : Bytes → C

pub data Activity : Type 0 where
  fetched : ActivityFetch → Activity
  phase : PhaseEvent → Bytes → Bytes → Activity

pub record Snapshot (C : Type 0) : Type 0 where
  pub job : CrawlJob
  pub urls_by_status : Option C
  pub issues_by_type : Option C

pub data Sent (C : Type 0) : Type 0 where
  status : Snapshot C → Sent C
  activity : Activity → Sent C
  done : Status → Sent C
  job_vanished : Sent C

abbrev pub stream_fetch_batch : ℕ
stream_fetch_batch = 200

abbrev pub stream_event_batch : ℕ
stream_event_batch = 50

-- ORDER BY id ASC LIMIT ? among the rows after an id.
unfoldable pub rows_since : {A : Type 0} → (A → ℕ) → (A → Bool) → ℕ → ℕ → List A → List A
rows_since id_of belongs since limit rows =
    take limit (keep (λ r. belongs r && ltb since (id_of r)) (by_id id_of rows))

unfoldable pub get_fetches_since :
    {C : Type 0} → ActivityTables C → Bytes → ℕ → ℕ → List ActivityFetch
get_fetches_since db job_id since limit =
    rows_since (λ f. f.id) (λ f. bytes_eq f.job_id job_id) since limit db.fetches

unfoldable pub get_phase_events_since :
    {C : Type 0} → ActivityTables C → Bytes → ℕ → ℕ → List PhaseEvent
get_phase_events_since db job_id since limit =
    rows_since (λ e. e.id) (λ e. bytes_eq e.job_id job_id && bytes_eq e.event_type (codes "phase"))
      since limit db.events

pub record Session (C : Type 0) : Type 0 where
  pub job_id : Bytes
  pub last_fetch_id : ℕ
  pub last_event_id : ℕ
  pub cached_urls_by_status : Option C
  pub cached_issues_by_type : Option C
  pub urls_count_stale : Bool
  pub issues_count_stale : Bool
  pub sent : List (Sent C)

-- A watermark that the client gives counts if it is a positive number.
unfoldable pub watermark : Option ℤ → ℕ
watermark (some (pos n)) = n
watermark _ = 0

unfoldable pub new_stream_session : {C : Type 0} → Bytes → Option ℤ → Option ℤ → Session C
new_stream_session job_id since_fetch_id since_event_id = record {
  job_id = job_id;
  last_fetch_id = watermark since_fetch_id;
  last_event_id = watermark since_event_id;
  cached_urls_by_status = none;
  cached_issues_by_type = none;
  urls_count_stale = true;
  issues_count_stale = true;
  sent = [];
}

unfoldable pub send : {C : Type 0} → Sent C → Session C → Session C
send message s = record s { sent = s.sent ++ message ∷ [] }

unfoldable pub is_terminal : Status → Bool
is_terminal completed = true
is_terminal failed = true
is_terminal cancelled = true
is_terminal queued = false
is_terminal running = false
is_terminal cancelling = false
is_terminal deleting = false

unfoldable pub refreshed : {C : Type 0} → Bool → Option C → C → Option C
refreshed stale none count = some count
refreshed stale (some old) count = if stale then some count else some old

unfoldable pub advanced : ℕ → ℕ → ℕ
advanced last id = if ltb last id then id else last

unfoldable pub phase_of : (Bytes → Bytes × Bytes) → PhaseEvent → Activity
phase_of details e = elim e.details_json [
  | none ↦ phase e [] []
  | some json ↦ let (name, message) = details json in phase e name message
]

module _ {C : Type 0} (details : Bytes → Bytes × Bytes) where
  unfoldable pub build_status_snapshot :
      ActivityTables C → CrawlJob → Session C → Snapshot C × Session C
  build_status_snapshot db job s =
      let urls =
        refreshed s.urls_count_stale s.cached_urls_by_status (db.urls_by_status s.job_id) in
      let issues =
        refreshed s.issues_count_stale s.cached_issues_by_type (db.issues_by_type s.job_id) in
      (
        record { job = job; urls_by_status = urls; issues_by_type = issues },
        record s {
          cached_urls_by_status = urls;
          cached_issues_by_type = issues;
          urls_count_stale = false;
          issues_count_stale = false;
        },
      )

  -- Whether the session goes on.
  unfoldable pub send_status : ActivityTables C → Session C → Bool × Session C
  send_status db s = elim (get_job db.jobs s.job_id) [
    | err _ ↦ (false, send job_vanished s)
    | ok job ↦
        let (snapshot, next) = build_status_snapshot db job s in (true, send (status snapshot) next)
  ]

  unfoldable pub send_fetches : List ActivityFetch → Session C → Session C
  send_fetches [] s = s
  send_fetches (f ∷ fs) s =
      send_fetches fs
        (record (send (activity (fetched f)) s) { last_fetch_id = advanced s.last_fetch_id f.id })

  unfoldable pub send_events : List PhaseEvent → Session C → Session C
  send_events [] s = s
  send_events (e ∷ es) s = send_events es (record (send (activity (phase_of details e)) s) {
    last_event_id = advanced s.last_event_id e.id;
  })

  -- New fetches make the counts stale.
  unfoldable pub send_new_fetches : List ActivityFetch → Session C → Session C
  send_new_fetches [] s = s
  send_new_fetches (f ∷ fs) s =
      send_fetches (f ∷ fs) (record s { urls_count_stale = true; issues_count_stale = true })

  unfoldable pub send_activity_delta : ActivityTables C → Session C → Session C
  send_activity_delta db s =
      let next =
        send_new_fetches (get_fetches_since db s.job_id s.last_fetch_id stream_fetch_batch) s in
      send_events (get_phase_events_since db next.job_id next.last_event_id stream_event_batch) next

  -- Whether the stream is over.
  unfoldable pub terminal : ActivityTables C → Session C → Bool × Session C
  terminal db s = elim (get_job db.jobs s.job_id) [
    | err _ ↦ (true, send job_vanished s)
    | ok job ↦ if is_terminal job.status then (true, send (done job.status) s) else (false, s)
  ]

  unfoldable pub tick : ActivityTables C → Session C → Bool × Session C
  tick db s =
      let (goes_on, after_status) = send_status db s in
      if not goes_on
      then (true, after_status)
      else terminal db (send_activity_delta db after_status)

  -- The snapshot at the start, and the ticks until the stream is over.
  unfoldable pub ticks : List (ActivityTables C) → Session C → Session C
  ticks [] s = s
  ticks (db ∷ dbs) s =
      let (over, next) = tick db s in let later = ticks dbs next in if over then next else later

  unfoldable pub stream : ActivityTables C → List (ActivityTables C) → Session C → Session C
  stream db dbs s =
      let (_, after_status) = send_status db s in ticks dbs (send_activity_delta db after_status)
