-- ===== src/HttpServer/Queue/Moves.antt =====
-- Each step keeps what holds of the server.
use seo_crawler_mcp.Prelude.{
  ℕ, ◌+◌, ◌<◌, ◌≤◌, true, false, ◌||◌, Option, none, some, List, [], ◌∷◌, ◌++◌, Bytes, bytes_eq,
  bytes_eq_refl, bytes_eq_iff, bytes_mem, if◌then◌else◌, length-append, any, any-append,
  length-keep_append, Bool-cases, ◌≡◌, refl, sym, ap, ◌∙◌, subst, ◌⊎◌, inl, inr, arith,
}
use seo_crawler_mcp.Storage.Jobs.{
  Status, queued, running, cancelled, failed, completed, Jobs, status_eq,
}
use seo_crawler_mcp.HttpServer.Queue.{
  Phase, launched, crawling, returned, nothing, was_cancelled, has_failed, Run, Server, Engine,
  completes, cancels, fails, refuses, panics, finish_job, run_crawl_job, registered_ids,
  go_on_or_end, run_moves,
}
use seo_crawler_mcp.Storage.Table.{is_running_with}
use seo_crawler_mcp.HttpServer.Queue.Invariant.{
  is_run_of, count_runs, is_open, covers, IsSound, IsKept, Shrinks, Shrinks-refl,
  finish_job-Shrinks,
}

-- The calls change, with as many for each id, and each job that still runs is covered.
rerun-IsSound :
    (max : ℕ) (js js' : Jobs) (runs runs' : List Run)
    → IsSound max js runs
    → Shrinks js js'
    → ((id : Bytes) → count_runs id runs' ≤ count_runs id runs)
    → ((id : Bytes)
        → any (is_running_with id) js' ≡ true
        → any (covers id) runs ≡ true
        → any (covers id) runs' ≡ true)
    → IsSound max js' runs'
rerun-IsSound max js js' runs runs' sound shrinks fewer covered = record {
  bounded = omega (arith, sound.bounded, shrinks.fewer);
  unique = λ id. omega (arith, sound.unique id, shrinks.ids id);
  single = λ id. omega (arith, sound.single id, fewer id);
  idle = λ id h. omega (arith, sound.idle id (shrinks.queued_only id h), fewer id);
  known = λ id h. shrinks.rows id ∙ sound.known id (omega (arith, fewer id, h));
  covered = λ id h. covered id h (sound.covered id (shrinks.running_only id h));
}

module _ (before after : List Run) (r : Run) where
  abbrev whole : List Run
  whole = before ++ r ∷ after

  count_whole :
      (id : Bytes) → count_runs id whole ≡ count_runs id before + count_runs id (r ∷ after)
  count_whole id = length-keep_append (is_run_of id) before (r ∷ after)

  any_whole :
      (id : Bytes) (q : Run)
      → any (covers id) (before ++ q ∷ after)
        ≡ any (covers id) before || any (covers id) (q ∷ after)
  any_whole id q = any-append (covers id) before (q ∷ after)

  -- A call that goes on to another phase.
  go_on :
      (max : ℕ) (js js' : Jobs) (next : Phase)
      → IsSound max js whole
      → Shrinks js js'
      → (is_open next ≡ true) ⊎ (any (is_running_with r.job_id) js' ≡ false)
      → IsSound max js' (before ++ record r { phase = next } ∷ after)
  unfolding covers is_run_of
  go_on max js js' next sound shrinks over =
      rerun-IsSound max js js' whole (before ++ moved ∷ after) sound shrinks fewer covered
    where
      moved : Run
      moved = record r { phase = next }

      fewer : (id : Bytes) → count_runs id (before ++ moved ∷ after) ≤ count_runs id whole
      fewer id =
          ground (arith, count_whole id, length-keep_append (is_run_of id) before (moved ∷ after))

      covered :
          (id : Bytes)
          → any (is_running_with id) js' ≡ true
          → any (covers id) whole ≡ true
          → any (covers id) (before ++ moved ∷ after) ≡ true
      covered id running_still was = elim (Bool-cases (bytes_eq r.job_id id)) [
        | inr other ↦ ground (arith, other, was, any_whole id r, any_whole id moved)
        | inl same ↦ elim over [
          | inl still_open ↦ ground (arith, same, still_open, any_whole id moved)
          | inr ended ↦
              let here =
                ap (λ i. any (is_running_with i) js') ((bytes_eq_iff r.job_id id).0 same) in
              absurd (cc (here, ended, running_still))
        ]
      ]

  -- A call that ends: its job does not run.
  leave :
      (max : ℕ) (js js' : Jobs)
      → IsSound max js whole
      → Shrinks js js'
      → any (is_running_with r.job_id) js' ≡ false
      → IsSound max js' (before ++ after)
  unfolding covers is_run_of
  leave max js js' sound shrinks ended =
      rerun-IsSound max js js' whole (before ++ after) sound shrinks fewer covered
    where
      fewer : (id : Bytes) → count_runs id (before ++ after) ≤ count_runs id whole
      fewer id = ground (arith, count_whole id, length-keep_append (is_run_of id) before after)

      covered :
          (id : Bytes)
          → any (is_running_with id) js' ≡ true
          → any (covers id) whole ≡ true
          → any (covers id) (before ++ after) ≡ true
      covered id running_still was = elim (Bool-cases (bytes_eq r.job_id id)) [
        | inr other ↦
            ground (arith, other, was, any_whole id r, any-append (covers id) before after)
        | inl same ↦
            let here = ap (λ i. any (is_running_with i) js') ((bytes_eq_iff r.job_id id).0 same) in
            absurd (cc (here, ended, running_still))
      ]

pub covers_counted : (id : Bytes) (rs : List Run) → any (covers id) rs ≡ true → 0 < count_runs id rs
unfolding covers is_run_of
covers_counted id [] h = absurd (cc h)
covers_counted id (r ∷ rs) h = ground (arith, h, covers_counted id rs)

registered_counted :
    (id : Bytes) (rs : List Run) → bytes_mem id (registered_ids rs) ≡ true → 0 < count_runs id rs
unfolding registered_ids is_run_of bytes_mem
registered_counted id [] h = absurd (cc h)
registered_counted id (r ∷ rs) h =
    ground (arith, h, registered_counted id rs, bytes_eq_iff id r.job_id, bytes_eq_iff r.job_id id)

-- What a part of runCrawlJob may do: it settles the job, or stays to do so.
abbrev pub IsFair : Bytes → Jobs → Option Phase × Jobs → Type 0
IsFair id js (none, js') = Shrinks js js' × (any (is_running_with id) js' ≡ false)
IsFair id js (some next, js') =
    Shrinks js js' × ((is_open next ≡ true) ⊎ (any (is_running_with id) js' ≡ false))

module _ (js : Jobs) (now : ℕ) (id : Bytes) (registered : List Bytes) where
  settles :
      (st : Status) (msg : Option Bytes) (next : Phase)
      → status_eq st queued ≡ false
      → status_eq st running ≡ false
      → IsFair id js (some next, finish_job id now st msg js)
  settles st msg next not_queued not_running =
      let done = finish_job-Shrinks id now st msg js not_queued not_running in (done.0, inr done.1)

  run_crawl_job-IsFair :
      (act : Engine) (phase : Phase)
      → bytes_mem id registered ≡ false
      → (is_open phase ≡ false → any (is_running_with id) js ≡ false)
      → IsFair id js (run_crawl_job registered act now (record { job_id = id; phase = phase }) js)
  unfolding run_crawl_job status_eq is_open
  run_crawl_job-IsFair act launched alone over =
      subst (λ b. IsFair id js ((if b then none else some crawling), js)) (sym alone)
        (Shrinks-refl js, inl refl)
  run_crawl_job-IsFair completes crawling alone over =
      settles completed none (returned nothing) refl refl
  run_crawl_job-IsFair (cancels msg) crawling alone over =
      settles cancelled (some msg) (returned (was_cancelled msg)) refl refl
  run_crawl_job-IsFair (fails msg) crawling alone over =
      settles failed (some msg) (returned (has_failed msg)) refl refl
  run_crawl_job-IsFair (refuses msg) crawling alone over = (Shrinks-refl js, inl refl)
  run_crawl_job-IsFair (panics msg) crawling alone over =
      finish_job-Shrinks id now failed (some msg) js refl refl
  run_crawl_job-IsFair act (returned nothing) alone over = (Shrinks-refl js, over refl)
  run_crawl_job-IsFair act (returned (was_cancelled msg)) alone over =
      settles cancelled (some msg) (returned nothing) refl refl
  run_crawl_job-IsFair act (returned (has_failed msg)) alone over =
      settles failed (some msg) (returned nothing) refl refl

module _ (max : ℕ) (before : List Run) (r : Run) (after : List Run) where
  alone :
      (js : Jobs)
      → IsSound max js (before ++ r ∷ after)
      → bytes_mem r.job_id (registered_ids (before ++ after)) ≡ false
  unfolding is_run_of
  alone js sound = ground (
    arith,
    sound.single r.job_id,
    count_whole before after r r.job_id,
    bytes_eq_refl r.job_id,
    length-keep_append (is_run_of r.job_id) before after,
    registered_counted r.job_id (before ++ after),
  )

  closed :
      (js : Jobs)
      → IsSound max js (before ++ r ∷ after)
      → is_open r.phase ≡ false
      → any (is_running_with r.job_id) js ≡ false
  unfolding is_run_of covers
  closed js sound over = ground (
    arith,
    sound.single r.job_id,
    count_whole before after r r.job_id,
    bytes_eq_refl r.job_id,
    over,
    sound.covered r.job_id,
    any_whole before after r r.job_id r,
    covers_counted r.job_id before,
    covers_counted r.job_id after,
  )

  go_on_or_end-IsKept :
      (s : Server) (out : Option Phase × Jobs)
      → IsSound max s.jobs (before ++ r ∷ after)
      → IsFair r.job_id s.jobs out
      → IsKept max (go_on_or_end before r after s out)
  unfolding go_on_or_end
  go_on_or_end-IsKept s (none, js) sound fair =
      (leave before after r max s.jobs js sound fair.0 fair.1, λ h. inl refl)
  go_on_or_end-IsKept s (some next, js) sound fair = (
    go_on before after r max s.jobs js next sound fair.0 fair.1,
    λ h. inr (ground (arith, length-append before (record r { phase = next } ∷ after))),
  )

  pub run_moves-IsKept :
      (act : Engine) (now : ℕ) (s : Server)
      → IsSound max s.jobs (before ++ r ∷ after)
      → IsKept max (run_moves before r after act now s)
  unfolding run_moves
  run_moves-IsKept act now s sound =
      go_on_or_end-IsKept s (run_crawl_job (registered_ids (before ++ after)) act now r s.jobs)
        sound
        (run_crawl_job-IsFair s.jobs now r.job_id (registered_ids (before ++ after)) act r.phase
          (alone s.jobs sound) (closed s.jobs sound))
