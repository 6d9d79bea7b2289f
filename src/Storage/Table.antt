-- ===== src/Storage/Table.antt =====
-- What the statements on the table of jobs do to the jobs that a test selects.
use seo_crawler_mcp.Prelude.{
  ℕ, ◌+◌, ◌≤◌, Bool, true, false, ◌&&◌, [], ◌∷◌, Bytes, bytes_eq, bytes_eq_iff, any, Bool-cases,
  ◌≡◌, refl, ◌⊎◌, inl, inr, arith,
}
use seo_crawler_mcp.Storage.Jobs.{
  Status, queued, running, CrawlJob, Jobs, status_eq, update_where, count_where, has_id,
  is_queued_with, start_row, is_running, count_running_jobs,
}

unfoldable pub is_running_with : Bytes → CrawlJob → Bool
is_running_with id j = has_id id j && status_eq j.status running

-- An update that sets the status and keeps the id and the type.
abbrev pub Relabels : Status → (CrawlJob → CrawlJob) → Type 0
Relabels st f =
    (j : CrawlJob) → ((f j).id ≡ j.id) × ((f j).status ≡ st) × ((f j).job_type ≡ j.job_type)

any-update_where :
    (q q' p : CrawlJob → Bool) (f : CrawlJob → CrawlJob) (js : Jobs)
    → ((j : CrawlJob) → p j ≡ true → q (f j) ≡ true → q' j ≡ true)
    → ((j : CrawlJob) → p j ≡ false → q j ≡ true → q' j ≡ true)
    → any q (update_where p f js) ≡ true
    → any q' js ≡ true
unfolding update_where
any-update_where q q' p f [] changed kept h = absurd (cc h)
any-update_where q q' p f (j ∷ js) changed kept h =
    let rest = any-update_where q q' p f js changed kept in
    elim (Bool-cases (p j)) [
      | inl picked ↦ ground (arith, changed j picked, rest, h, picked)
      | inr passed ↦ ground (arith, kept j passed, rest, h, passed)
    ]

count-update_where :
    (q p : CrawlJob → Bool) (f : CrawlJob → CrawlJob) (js : Jobs)
    → ((j : CrawlJob) → q (f j) ≡ true → q j ≡ true)
    → count_where q (update_where p f js) ≤ count_where q js
unfolding update_where
count-update_where q p f [] changed = omega arith
count-update_where q p f (j ∷ js) changed =
    ground (arith, changed j, count-update_where q p f js changed)

count_more :
    (q p : CrawlJob → Bool) (f : CrawlJob → CrawlJob) (js : Jobs)
    → count_where q (update_where p f js) ≤ count_where q js + count_where p js
unfolding update_where
count_more q p f [] = omega arith
count_more q p f (j ∷ js) = ground (arith, count_more q p f js)

count_same :
    (q p : CrawlJob → Bool) (f : CrawlJob → CrawlJob) (js : Jobs)
    → ((j : CrawlJob) → q (f j) ≡ q j)
    → count_where q (update_where p f js) ≡ count_where q js
unfolding update_where
count_same q p f [] same = refl
count_same q p f (j ∷ js) same = ground (arith, same j, count_same q p f js same)

any_same :
    (q p : CrawlJob → Bool) (f : CrawlJob → CrawlJob) (js : Jobs)
    → ((j : CrawlJob) → q (f j) ≡ q j)
    → any q (update_where p f js) ≡ any q js
unfolding update_where
any_same q p f [] same = refl
any_same q p f (j ∷ js) same = ground (arith, same j, any_same q p f js same)

any-false : (js : Jobs) → any (λ j. false) js ≡ false
any-false [] = refl
any-false (j ∷ js) = any-false js

module _ (st : Status) (p : CrawlJob → Bool) (f : CrawlJob → CrawlJob)
    (relabels : Relabels st f) where
  has_id-f : (i : Bytes) (j : CrawlJob) → has_id i (f j) ≡ has_id i j
  unfolding has_id
  has_id-f i j = cc ((relabels j).0)

  pub ids_same :
      (i : Bytes) (js : Jobs)
      → count_where (has_id i) (update_where p f js) ≡ count_where (has_id i) js
  ids_same i js = count_same (has_id i) p f js (has_id-f i)

  pub known_same :
      (i : Bytes) (js : Jobs) → any (has_id i) (update_where p f js) ≡ any (has_id i) js
  known_same i js = any_same (has_id i) p f js (has_id-f i)

  pub queued_before :
      (i : Bytes) (js : Jobs)
      → status_eq st queued ≡ false
      → any (is_queued_with i) (update_where p f js) ≡ true
      → any (is_queued_with i) js ≡ true
  unfolding is_queued_with
  queued_before i js other =
      any-update_where (is_queued_with i) (is_queued_with i) p f js
        (λ j picked h. ground (arith, relabels j, other, h)) (λ j passed h. h)

  pub running_before :
      (i : Bytes) (js : Jobs)
      → status_eq st running ≡ false
      → any (is_running_with i) (update_where p f js) ≡ true
      → any (is_running_with i) js ≡ true
  unfolding is_running_with
  running_before i js other =
      any-update_where (is_running_with i) (is_running_with i) p f js
        (λ j picked h. ground (arith, relabels j, other, h)) (λ j passed h. h)

  pub running_fewer :
      (t : Bytes) (js : Jobs)
      → status_eq st running ≡ false
      → count_running_jobs t (update_where p f js) ≤ count_running_jobs t js
  unfolding count_running_jobs is_running
  running_fewer t js other =
      count-update_where (is_running t) p f js λ j h. ground (arith, relabels j, other, h)

  -- After an update by id no row with the id has another status.
  pub settled :
      (id : Bytes) (js : Jobs)
      → ((j : CrawlJob) → p j ≡ has_id id j)
      → status_eq st running ≡ false
      → any (is_running_with id) (update_where p f js) ≡ false
  unfolding is_running_with
  settled id js selects other = elim (Bool-cases (any (is_running_with id) (update_where p f js))) [
    | inr done ↦ done
    | inl left ↦
        let none_left =
          any-update_where (is_running_with id) (λ j. false) p f js
            (λ j picked h. ground (arith, relabels j, other, h))
            (λ j passed h. ground (arith, selects j, passed, h)) left in
        absurd (cc (none_left, any-false js))
  ]

-- Starting a queued job.
module _ (id : Bytes) (now : ℕ) (js : Jobs) where
  abbrev pub started : Jobs
  started = update_where (is_queued_with id) (start_row now) js

  start_row-Relabels : Relabels running (start_row now)
  unfolding start_row
  start_row-Relabels j = (refl, refl, refl)

  count_weaker : (ks : Jobs) → count_where (is_queued_with id) ks ≤ count_where (has_id id) ks
  unfolding is_queued_with
  count_weaker [] = omega arith
  count_weaker (k ∷ ks) = ground (arith, count_weaker ks)

  pub started_running :
      (i : Bytes)
      → any (is_running_with i) started ≡ true
      → (any (is_running_with i) js ≡ true) ⊎ (bytes_eq id i ≡ true)
  unfolding is_running_with is_queued_with start_row has_id
  started_running i h = elim (Bool-cases (bytes_eq id i)) [
    | inl same ↦ inr same
    | inr other ↦ inl (
        any-update_where (is_running_with i) (is_running_with i) (is_queued_with id) (start_row now)
          js
          (λ j picked h.
            ground (
              arith,
              picked,
              h,
              other,
              bytes_eq_iff j.id id,
              bytes_eq_iff j.id i,
              bytes_eq_iff id i,
            ))
          (λ j passed h. h) h)
  ]

  pub started_queued :
      (i : Bytes) → any (is_queued_with i) started ≡ true → any (is_queued_with i) js ≡ true
  unfolding status_eq
  started_queued i =
      queued_before running (is_queued_with id) (start_row now) start_row-Relabels i js refl

  pub started_not_queued : any (is_queued_with id) started ≡ false
  unfolding is_queued_with start_row status_eq
  started_not_queued = elim (Bool-cases (any (is_queued_with id) started)) [
    | inr done ↦ done
    | inl left ↦
        let none_left =
          any-update_where (is_queued_with id) (λ j. false) (is_queued_with id) (start_row now) js
            (λ j picked h. ground (arith, h)) (λ j passed h. cc (passed, h)) left in
        absurd (cc (none_left, any-false js))
  ]

  pub started_more :
      (t : Bytes)
      → count_running_jobs t started ≤ count_running_jobs t js + count_where (has_id id) js
  unfolding count_running_jobs
  started_more t =
      let more = count_more (is_running t) (is_queued_with id) (start_row now) js in
      omega (arith, more, count_weaker js)

  pub started_ids : (i : Bytes) → count_where (has_id i) started ≡ count_where (has_id i) js
  started_ids i = ids_same running (is_queued_with id) (start_row now) start_row-Relabels i js

  pub started_known : (i : Bytes) → any (has_id i) started ≡ any (has_id i) js
  started_known i = known_same running (is_queued_with id) (start_row now) start_row-Relabels i js
