-- ===== src/HttpServer/Queue/Posts.antt =====
-- The steps of handleCrawl keep what holds of the server.
use seo_crawler_mcp.Prelude.{
  ℕ, ◌<◌, ◌≤◌, Bool, true, false, none, List, [], ◌∷◌, ◌++◌, Bytes, codes, bytes_eq, bytes_eq_refl,
  bytes_eq_iff, ltb, length, any, any-append, length-keep_append, Bool-cases, ◌≡◌, refl, sym, subst,
  ◌⊎◌, inl, inr, arith,
}
use seo_crawler_mcp.Prelude.Result.{ok}
use seo_crawler_mcp.Storage.Jobs.{
  CrawlJob, Jobs, status_eq, has_id, new_row, insert_row, create_job, is_queued_with, is_active,
  is_running, count_where, count_active_jobs, count_running_jobs,
}
use seo_crawler_mcp.HttpServer.Queue.{Run, Server, launch, handle_crawl}
use seo_crawler_mcp.Storage.Table.{is_running_with, started}
use seo_crawler_mcp.Storage.Queries.{active_of_count}
use seo_crawler_mcp.HttpServer.Queue.Invariant.{IsSound, IsKept}
use seo_crawler_mcp.HttpServer.Queue.Starts.{start-IsSound, some_run, update_job_started_ok}

no_count : (p : CrawlJob → Bool) (js : Jobs) → any p js ≡ false → count_where p js ≡ 0
no_count p [] h = refl
no_count p (j ∷ js) h = ground (arith, h, no_count p js)

module _ (max : ℕ) (id : Bytes) (now : ℕ) (config_json seed_urls : Bytes) where
  abbrev row : CrawlJob
  row = new_row id (codes "crawl") config_json seed_urls none now

  abbrev with_row : Jobs → Jobs
  with_row js = js ++ row ∷ []

  create_job_ok :
      (js : Jobs)
      → any (has_id id) js ≡ false
      → create_job id now (codes "crawl") config_json seed_urls js ≡ ok (with_row js, row)
  unfolding create_job insert_row new_row
  create_job_ok js fresh = ground (arith, fresh)

  with_row_waits : (js : Jobs) → any (is_queued_with id) (with_row js) ≡ true
  unfolding is_queued_with has_id new_row status_eq
  with_row_waits js = ground (arith, any-append (is_queued_with id) js (row ∷ []), bytes_eq_refl id)

  with_row-IsSound :
      (js : Jobs) (runs : List Run)
      → any (has_id id) js ≡ false
      → IsSound max js runs
      → IsSound max (with_row js) runs
  unfolding is_queued_with has_id new_row status_eq is_running_with count_running_jobs is_running
  with_row-IsSound js runs fresh sound = record {
    bounded =
        ground
          (arith, sound.bounded, length-keep_append (is_running (codes "crawl")) js (row ∷ []));
    unique = λ i. ground (
      arith,
      sound.unique i,
      same i,
      fresh,
      no_count (has_id i) js,
      length-keep_append (has_id i) js (row ∷ []),
    );
    single = sound.single;
    idle = λ i h. ground (
      arith,
      h,
      same i,
      fresh,
      sound.idle i,
      sound.known i,
      any-append (is_queued_with i) js (row ∷ []),
    );
    known = λ i h. ground (arith, h, sound.known i, any-append (has_id i) js (row ∷ []));
    covered =
        λ i h. ground (arith, h, sound.covered i, any-append (is_running_with i) js (row ∷ []));
  }
    where
      same : (i : Bytes) → (bytes_eq id i ≡ true) → id ≡ i
      same i = (bytes_eq_iff id i).0

  with_row_running :
      (js : Jobs)
      → count_running_jobs (codes "crawl") (with_row js) ≡ count_running_jobs (codes "crawl") js
  unfolding count_running_jobs is_running new_row status_eq
  with_row_running js =
      ground (arith, length-keep_append (is_running (codes "crawl")) js (row ∷ []))

  -- Running jobs are active ones.
  running_of_active :
      (js : Jobs) → count_running_jobs (codes "crawl") js ≤ count_active_jobs (codes "crawl") js
  unfolding count_running_jobs count_active_jobs is_running is_active
  running_of_active [] = omega arith
  running_of_active (j ∷ js) = ground (arith, running_of_active js)

  -- With as many active jobs as may run there is a queued job or a call.
  crowded :
      (s : Server)
      → 0 < count_active_jobs (codes "crawl") s.jobs
      → IsKept max s
      → (s.signal ≡ true) ⊎ (0 < length s.runs)
  crowded s active (sound, awaited) = elim (active_of_count (codes "crawl") s.jobs active) [
    | inl waiting ↦ awaited waiting
    | inr (i, found) ↦ inr (some_run i s.runs (sound.covered i found))
  ]

  abbrev posted : Server → Server
  posted s = handle_crawl max id now config_json seed_urls s

  posted_taken : (s : Server) → any (has_id id) s.jobs ≡ true → posted s ≡ s
  unfolding handle_crawl create_job insert_row new_row
  posted_taken s taken = ground (arith, taken)

  posted_waits :
      (s : Server)
      → any (has_id id) s.jobs ≡ false
      → ltb (count_active_jobs (codes "crawl") s.jobs) max ≡ false
      → posted s ≡ record s { jobs = with_row s.jobs }
  unfolding handle_crawl
  posted_waits s fresh full = ground (arith, full, create_job_ok s.jobs fresh)

  posted_starts :
      (s : Server)
      → any (has_id id) s.jobs ≡ false
      → ltb (count_active_jobs (codes "crawl") s.jobs) max ≡ true
      → posted s ≡ launch id (record s { jobs = started id now (with_row s.jobs) })
  unfolding handle_crawl
  posted_starts s fresh room = ground (
    arith,
    room,
    create_job_ok s.jobs fresh,
    update_job_started_ok id now (with_row s.jobs) (with_row_waits s.jobs),
  )

  pub handle_crawl-IsKept :
      (s : Server)
      → 0 < max
      → IsKept max s
      → IsKept max (handle_crawl max id now config_json seed_urls s)
  unfolding launch
  handle_crawl-IsKept s positive kept = elim (Bool-cases (any (has_id id) s.jobs)) [
    | inl taken ↦ subst (IsKept max) (sym (posted_taken s taken)) kept
    | inr fresh ↦
        let sound = with_row-IsSound s.jobs s.runs fresh kept.0 in
        elim (Bool-cases (ltb (count_active_jobs (codes "crawl") s.jobs) max)) [
          | inr full ↦
              subst (IsKept max) (sym (posted_waits s fresh full))
                (sound, λ h. crowded s (ground (arith, full, positive)) kept)
          | inl room ↦ subst (IsKept max) (sym (posted_starts s fresh room)) (
            start-IsSound max id now (with_row s.jobs) s.runs sound (with_row_waits s.jobs)
                (ground (arith, room, with_row_running s.jobs, running_of_active s.jobs)),
            λ h. inr (omega arith),
          )
        ]
  ]
