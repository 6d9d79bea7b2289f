-- ===== src/Tests/Stream.antt =====
-- A tick of a stream of internal/httpserver on two fetches, and its theorem there.
use seo_crawler_mcp.Prelude.{
  ℕ, none, [], ◌∷◌, ◌++◌, Bytes, codes, take, drop, bytes_eq, ◌≢◌, ◌≡◌, refl, arith,
}
use seo_crawler_mcp.Storage.Paging.{insert_by_id, by_id}
use seo_crawler_mcp.HttpServer.Stream.{
  ActivityFetch, ActivityTables, Session, stream_fetch_batch, rows_since, get_fetches_since,
  get_phase_events_since, watermark, new_stream_session, send, advanced, send_fetches, send_events,
  send_new_fetches, send_activity_delta,
}
use seo_crawler_mcp.HttpServer.Stream.Feed.{fetches_of, waiting, send_activity_delta-waiting}

abbrev fetch : ℕ → ActivityFetch
fetch id = record {
  id = id;
  job_id = codes "j";
  url = codes "u";
  status_code = 200;
  ttfb_ms = 1;
  fetched_at = [];
  render_mode = none;
  error = none;
}

abbrev db : ActivityTables ℕ
db = record {
  jobs = [];
  fetches = fetch 4 ∷ fetch 2 ∷ [];
  events = [];
  urls_by_status = λ id. 0;
  issues_by_type = λ id. 0;
}

abbrev details : Bytes → Bytes × Bytes
details json = ([], [])

abbrev session : Session ℕ
session = new_stream_session (codes "j") none none

both_sent : fetches_of (send_activity_delta details db session).sent ≡ fetch 2 ∷ fetch 4 ∷ []
unfolding fetches_of send_activity_delta send_new_fetches send_fetches send_events send advanced
    new_stream_session watermark get_fetches_since get_phase_events_since rows_since by_id
    insert_by_id bytes_eq
both_sent = refl

send_activity_delta-waiting_example :
    (fetches_of (send_activity_delta details db session).sent
      ≡ fetches_of session.sent
        ++ take stream_fetch_batch (waiting db session.job_id session.last_fetch_id))
    × (waiting db
          (send_activity_delta details db session).job_id
          (send_activity_delta details db session).last_fetch_id
        ≡ drop stream_fetch_batch (waiting db session.job_id session.last_fetch_id))
send_activity_delta-waiting_example =
    send_activity_delta-waiting details db session
      (let differ : 4 ≢ 2 = omega arith in ((differ, tt), (tt, tt)))
