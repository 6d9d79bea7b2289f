-- ===== src/Storage/Purge/Chunks.antt =====
-- A purge ends and deletes what belongs to the job, and nothing else.
use seo_crawler_mcp.Prelude.{
  ℕ, zero, suc, true, any, ◌+◌, ◌*◌, ◌<◌, not, some, List, [], ◌∷◌, Bytes, bytes_mem, if◌then◌else◌,
  ltb, length, keep, All, Bool-cases, ◌≡◌, refl, sym, ap, ap₂, ◌∙◌, inl, inr, arith,
}
use seo_crawler_mcp.Prelude.Options.{◌>>=◌}
use seo_crawler_mcp.Storage.Jobs.{has_id}
use mathlib.Core.List.{map}
use seo_crawler_mcp.Storage.Purge.{
  Row, Table, Database, purge_chunk_size, purge_tables, is_row_of, delete_chunk,
  purge_table_chunked, purge_if_named, purge_named, purge_listed, purge_job, delete_job,
  without_job,
}

abbrev pub rows_of : Bytes → List Row → ℕ
rows_of id rows = length (keep (is_row_of id) rows)

abbrev pub without : Bytes → List Row → List Row
without id rows = keep (λ r. not (is_row_of id r)) rows

without-delete_chunk :
    (n : ℕ) (id : Bytes) (rows : List Row) → without id (delete_chunk n id rows).0 ≡ without id rows
unfolding delete_chunk
without-delete_chunk n id [] = refl
without-delete_chunk zero id (r ∷ rs) = refl
without-delete_chunk (suc n) id (r ∷ rs) =
    ground (arith, without-delete_chunk n id rs, without-delete_chunk (suc n) id rs)

count-delete_chunk :
    (n : ℕ) (id : Bytes) (rows : List Row)
    → rows_of id rows ≡ rows_of id (delete_chunk n id rows).0 + (delete_chunk n id rows).1
unfolding delete_chunk
count-delete_chunk n id [] = omega arith
count-delete_chunk zero id (r ∷ rs) = omega arith
count-delete_chunk (suc n) id (r ∷ rs) =
    ground (arith, count-delete_chunk n id rs, count-delete_chunk (suc n) id rs)

-- A chunk that is not full has taken the last rows.
last_chunk :
    (n : ℕ) (id : Bytes) (rows : List Row)
    → (delete_chunk n id rows).1 < n
    → rows_of id (delete_chunk n id rows).0 ≡ 0
unfolding delete_chunk
last_chunk n id [] h = refl
last_chunk zero id (r ∷ rs) h = absurd (omega (arith, h))
last_chunk (suc n) id (r ∷ rs) h = ground (arith, h, last_chunk n id rs, last_chunk (suc n) id rs)

nothing_left : (id : Bytes) (rows : List Row) → rows_of id rows ≡ 0 → without id rows ≡ rows
nothing_left id [] h = refl
nothing_left id (r ∷ rs) h = ground (arith, h, nothing_left id rs)

-- Fuel for one chunk more than the full ones is enough.
pub purge_table_chunked-without :
    (fuel : ℕ) (id : Bytes) (rows : List Row)
    → rows_of id rows < fuel * purge_chunk_size
    → purge_table_chunked fuel id rows ≡ some (without id rows)
unfolding purge_table_chunked
purge_table_chunked-without zero id rows enough = absurd (omega (arith, enough))
purge_table_chunked-without (suc fuel) id rows enough =
    let chunk = delete_chunk purge_chunk_size id rows in
    let counted = count-delete_chunk purge_chunk_size id rows in
    let same = without-delete_chunk purge_chunk_size id rows in
    elim (Bool-cases (ltb chunk.1 purge_chunk_size)) [
      | inl last ↦
          let ended = last_chunk purge_chunk_size id rows (ground (arith, last)) in
          ground (arith, last, sym (nothing_left id chunk.0 ended) ∙ same)
      | inr full ↦
          let room : rows_of id chunk.0 < fuel * purge_chunk_size =
            ground (arith, counted, full, enough) in
          ground (arith, full, purge_table_chunked-without fuel id chunk.0 room, same)
    ]

-- What a purge makes of a table, where it clears the ones with these names.
unfoldable pub clear : Bytes → List Bytes → Table → Table
clear id names t = if bytes_mem t.name names then record t { rows = without id t.rows } else t

-- The fuel is enough for every table.
abbrev pub IsEnough : ℕ → Bytes → List Table → Type 0
IsEnough fuel id tables = All (λ t. rows_of id t.rows < fuel * purge_chunk_size) tables

purge_if_named-clear :
    (fuel : ℕ) (id name : Bytes) (t : Table)
    → rows_of id t.rows < fuel * purge_chunk_size
    → purge_if_named fuel id name t ≡ some (clear id (name ∷ []) t)
unfolding purge_if_named clear bytes_mem
purge_if_named-clear fuel id name t enough =
    ground (arith, purge_table_chunked-without fuel id t.rows enough)

purge_named-clear :
    (fuel : ℕ) (id name : Bytes) (ts : List Table)
    → IsEnough fuel id ts
    → purge_named fuel id name ts ≡ some (map (clear id (name ∷ [])) ts)
unfolding purge_named
purge_named-clear fuel id name [] enough = refl
purge_named-clear fuel id name (t ∷ ts) (enough, others) =
    ground
      (arith, purge_if_named-clear fuel id name t enough, purge_named-clear fuel id name ts others)

without-without : (id : Bytes) (rows : List Row) → without id (without id rows) ≡ without id rows
without-without id [] = refl
without-without id (r ∷ rs) = ground (arith, without-without id rs)

rows_of-without : (id : Bytes) (rows : List Row) → rows_of id (without id rows) ≡ 0
rows_of-without id [] = refl
rows_of-without id (r ∷ rs) = ground (arith, rows_of-without id rs)

clear-clear :
    (id name : Bytes) (names : List Bytes) (t : Table)
    → clear id names (clear id (name ∷ []) t) ≡ clear id (name ∷ names) t
unfolding clear bytes_mem
clear-clear id name names t = ground (arith, without-without id t.rows)

map-clear :
    (id name : Bytes) (names : List Bytes) (ts : List Table)
    → map (clear id names) (map (clear id (name ∷ [])) ts) ≡ map (clear id (name ∷ names)) ts
map-clear id name names [] = refl
map-clear id name names (t ∷ ts) =
    ap₂ (λ u us. u ∷ us) (clear-clear id name names t) (map-clear id name names ts)

still-IsEnough :
    (fuel : ℕ) (id : Bytes) (names : List Bytes) (ts : List Table)
    → IsEnough fuel id ts
    → IsEnough fuel id (map (clear id names) ts)
unfolding clear
still-IsEnough fuel id names [] enough = tt
still-IsEnough fuel id names (t ∷ ts) (enough, others) =
    (ground (arith, enough, rows_of-without id t.rows), still-IsEnough fuel id names ts others)

clear_nothing : (id : Bytes) (ts : List Table) → map (clear id []) ts ≡ ts
unfolding clear bytes_mem
clear_nothing id [] = refl
clear_nothing id (t ∷ ts) = ap (λ us. t ∷ us) (clear_nothing id ts)

purge_listed-clear :
    (fuel : ℕ) (id : Bytes) (names : List Bytes) (ts : List Table)
    → IsEnough fuel id ts
    → purge_listed fuel id names ts ≡ some (map (clear id names) ts)
unfolding purge_listed
purge_listed-clear fuel id [] ts enough = ap (λ us. some us) (sym (clear_nothing id ts))
purge_listed-clear fuel id (name ∷ names) ts enough =
    let rest =
      purge_listed-clear fuel id names (map (clear id (name ∷ [])) ts)
        (still-IsEnough fuel id (name ∷ []) ts enough) in
    ap (λ cleared. cleared >>= purge_listed fuel id names)
      (purge_named-clear fuel id name ts enough)
    ∙ rest
    ∙ ap (λ ts'. some ts') (map-clear id name names ts)

-- A table without the job's rows.
abbrev pub rid_of : Bytes → Table → Table
rid_of id t = record t { rows = without id t.rows }

-- What is cleared before has nothing left to take.
map-without_job :
    (id : Bytes) (names : List Bytes) (ts : List Table)
    → map (without_job id) (map (clear id names) ts) ≡ map (without_job id) ts
unfolding without_job clear
map-without_job id names [] = refl
map-without_job id names (t ∷ ts) =
    ap₂ (λ u us. u ∷ us) (ground (arith, without-without id t.rows)) (map-without_job id names ts)

-- Where every table has fewer rows of a job than so many chunks take, and the job is in its table,
-- PurgeJob ends within as many rounds for each of its tables: the job is gone and so are its rows, from
-- whatever table refers to it, while every other row and job is as before and in its place.
pub purge_job-without :
    (fuel : ℕ) (id : Bytes) (db : Database)
    → IsEnough fuel id db.tables
    → any (has_id id) db.jobs ≡ true
    → purge_job fuel id db
      ≡ some (record {
        tables = map (rid_of id) db.tables;
        jobs = keep (λ j. not (has_id id j)) db.jobs;
      })
unfolding purge_job delete_job without_job
purge_job-without fuel id db enough there_is =
    ap (λ cleared. cleared >>= λ tables. some (delete_job id tables db.jobs))
      (purge_listed-clear fuel id purge_tables db.tables enough)
    ∙ ap some (deleted there_is)
  where
    deleted :
        any (has_id id) db.jobs ≡ true
        → delete_job id (map (clear id purge_tables) db.tables) db.jobs ≡ record {
          tables = map (rid_of id) db.tables;
          jobs = keep (λ j. not (has_id id j)) db.jobs;
        }
    deleted h =
        rw (h, delete_job)
          (ap (λ ts. record { tables = ts; jobs = keep (λ j. not (has_id id j)) db.jobs })
            (map-without_job id purge_tables db.tables))
