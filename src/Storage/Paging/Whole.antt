-- ===== src/Storage/Paging/Whole.antt =====
-- Following the cursors reads every row once, in order.
use seo_crawler_mcp.Prelude.{
  ℕ, zero, suc, ◌<◌, ◌≤◌, Bool, true, false, ◌&&◌, Option, none, some, List, [], ◌∷◌, ◌++◌, Bytes,
  is_empty, if◌then◌else◌, ltb, ltb→lt, Bool-cases, length, keep, take, All, ◌≡◌, refl, sym, ap,
  subst, ◌∙◌, inl, inr, arith,
}
use seo_crawler_mcp.Prelude.Int.{ℤ, pos, negsuc}
use seo_crawler_mcp.Prelude.Result.{Result, ok, err, ◌>>=◌, bind-ok, ok_injective}
use seo_crawler_mcp.Storage.Paging.{
  PagedResult, QueryError, normalize_cursor_limit, encode_cursor, decode_cursor, is_after, by_id,
  last_id, cut, paged,
}
use seo_crawler_mcp.Storage.Paging.Cursors.{encode_cursor-full, decode_cursor-encode_cursor}
use seo_crawler_mcp.Storage.Decimal.{int64_bound}
use seo_crawler_mcp.Storage.Paging.Sorting.{
  Distinct, Ascending, All-by_id, All-keep, by_id-Ascending, keep-Ascending, length-by_id,
  keep-is_after_zero, keep-is_after,
}

-- What a client reads that starts without a cursor and asks with each next one until there is none,
-- at most so many times.
unfoldable pub read_all :
    {A : Type 0} → (Bytes → Result QueryError (PagedResult A)) → ℕ → Bytes → Option (List A)
read_all query zero cursor = none
read_all query (suc n) cursor = elim (query cursor) [
  | err _ ↦ none
  | ok page ↦
      if is_empty page.next_cursor
      then some page.results
      else elim (read_all query n page.next_cursor) [
        | none ↦ none
        | some rows ↦ some (page.results ++ rows)
      ]
]

module _ {A : Type 0} where
  -- The first n of more than n elements end with one of them.
  take_last :
      (n : ℕ) (xs : List A)
      → n < length xs
      → 0 < n
      → (ys : List A) × (x : A) × (zs : List A) × (xs ≡ ys ++ x ∷ zs)
        × (take n xs ≡ ys ++ x ∷ [])
        × (length zs < length xs)
  take_last (suc zero) (x ∷ xs) h p = ([], x, xs, refl, refl, omega arith)
  take_last (suc (suc n)) (x ∷ xs) h p =
      let (ys, y, zs, whole, first, less) = take_last (suc n) xs (omega (arith, h)) (omega arith) in
      (x ∷ ys, y, zs, ap (λ r. x ∷ r) whole, ap (λ r. x ∷ r) first, omega (arith, less))
  take_last (suc zero) [] h p = absurd (omega (arith, h))
  take_last (suc (suc n)) [] h p = absurd (omega (arith, h))
  take_last zero xs h p = absurd (omega (arith, p))

  take_all : (n : ℕ) (xs : List A) → length xs ≤ n → take n xs ≡ xs
  take_all zero [] h = refl
  take_all zero (x ∷ xs) h = absurd (omega (arith, h))
  take_all (suc n) [] h = refl
  take_all (suc n) (x ∷ xs) h = ap (λ r. x ∷ r) (take_all n xs (omega (arith, h)))

  take-take : (n : ℕ) (xs : List A) → take n (take (suc n) xs) ≡ take n xs
  take-take zero xs = refl
  take-take (suc n) [] = refl
  take-take (suc n) (x ∷ xs) = ap (λ r. x ∷ r) (take-take n xs)

  length-take_more : (n : ℕ) (xs : List A) → n < length xs → n < length (take (suc n) xs)
  length-take_more zero (x ∷ xs) h = omega arith
  length-take_more (suc n) (x ∷ xs) h =
      let ih = length-take_more n xs (omega (arith, h)) in omega (arith, ih)
  length-take_more zero [] h = h
  length-take_more (suc n) [] h = absurd (omega (arith, h))

  keep_both : (p q : A → Bool) (xs : List A) → keep (λ r. p r && q r) xs ≡ keep q (keep p xs)
  keep_both p q [] = refl
  keep_both p q (x ∷ xs) = let ih = keep_both p q xs in ground (arith, ih)

  append_assoc : (xs ys zs : List A) → (xs ++ ys) ++ zs ≡ xs ++ (ys ++ zs)
  append_assoc [] ys zs = refl
  append_assoc (x ∷ xs) ys zs = ap (λ r. x ∷ r) (append_assoc xs ys zs)

normalize_cursor_limit-positive : (limit : ℤ) → 0 < normalize_cursor_limit limit
unfolding normalize_cursor_limit
normalize_cursor_limit-positive (pos zero) = omega arith
normalize_cursor_limit-positive (pos (suc n)) = omega arith
normalize_cursor_limit-positive (negsuc n) = omega arith

-- The rows of a query are those of all its pages, and each page counts them.
pub record IsPaged {A : Type 0} (query : Bytes → Result QueryError (PagedResult A)) (rows : List A)
    : Type 0 where
  pub whole : (fuel : ℕ) → length rows < fuel → read_all query fuel [] ≡ some rows
  pub total :
      (cursor : Bytes) (page : PagedResult A)
      → query cursor ≡ ok page
      → page.total_count ≡ length rows

-- The ids of a table are different, positive and int64.
pub record IsKeyed {A : Type 0} (id_of : A → ℕ) (table : List A) : Type 0 where
  pub distinct : Distinct id_of table
  pub positive : All (λ r. 0 < id_of r) table
  pub bounded : All (λ r. id_of r < int64_bound) table

module _ {A : Type 0} (query : Bytes → Result QueryError (PagedResult A)) (n : ℕ) (cursor : Bytes)
    (page : PagedResult A) (h : query cursor ≡ ok page) where
  read_all_last :
      is_empty page.next_cursor ≡ true → read_all query (suc n) cursor ≡ some page.results
  unfolding read_all
  read_all_last e = ground (arith, h, e)

  read_all_next :
      (rows : List A)
      → is_empty page.next_cursor ≡ false
      → read_all query n page.next_cursor ≡ some rows
      → read_all query (suc n) cursor ≡ some (page.results ++ rows)
  unfolding read_all
  read_all_next rows e r = ground (arith, h, e, r)

module _ {A : Type 0} (id_of : A → ℕ) where
  last_id-append : (xs : List A) (x : A) → last_id id_of (xs ++ x ∷ []) ≡ id_of x
  unfolding last_id
  last_id-append [] x = refl
  last_id-append (y ∷ []) x = refl
  last_id-append (y ∷ z ∷ xs) x = last_id-append (z ∷ xs) x

  cut_whole :
      (n : ℕ) (rows : List A) → length rows ≤ n → cut id_of n (take (suc n) rows) ≡ (rows, [])
  unfolding cut
  cut_whole n rows h = let t = take_all (suc n) rows (omega (arith, h)) in ground (arith, t, h)

  cut_part :
      (n : ℕ) (rows : List A)
      → n < length rows
      → cut id_of n (take (suc n) rows) ≡ (take n rows, encode_cursor (last_id id_of (take n rows)))
  unfolding cut
  cut_part n rows h =
      let l = length-take_more n rows h in let t = take-take n rows in ground (arith, t, l)

  module _ (matches : A → Bool) (ignored : List Bytes) (table : List A) (limit : ℤ) where
    abbrev query : Bytes → Result QueryError (PagedResult A)
    query = paged id_of matches ignored table limit

    abbrev matching : List A
    matching = keep matches (by_id id_of table)

    abbrev page_of : List A → PagedResult A
    page_of rest =
        let cut_rows =
          cut id_of (normalize_cursor_limit limit)
            (take (suc (normalize_cursor_limit limit)) rest) in
        record {
          results = cut_rows.0;
          next_cursor = cut_rows.1;
          total_count = length (keep matches table);
          ignored_filters = ignored;
        }

    query_page :
        (cursor : Bytes) (c : ℤ)
        → decode_cursor cursor ≡ ok c
        → query cursor ≡ ok (page_of (keep (λ r. is_after c (id_of r)) matching))
    unfolding paged
    query_page cursor c h =
        let both = keep_both matches (λ r. is_after c (id_of r)) (by_id id_of table) in
        subst
          (λ d.
            (d >>= λ cursor_id.
            ok
              (page_of (keep (λ r. matches r && is_after cursor_id (id_of r)) (by_id id_of table))))
            ≡ ok (page_of (keep (λ r. is_after c (id_of r)) matching)))
          (sym h) (ap (λ rows. ok (page_of rows)) both)

    module _ (ordered : Ascending id_of matching)
        (bounded : All (λ r. id_of r < int64_bound) matching) where
      bounded_at :
          (xs : List A) (x : A) (ys : List A)
          → All (λ r. id_of r < int64_bound) (xs ++ x ∷ ys)
          → id_of x < int64_bound
      bounded_at [] x ys (h, hs) = h
      bounded_at (y ∷ xs) x ys (h, hs) = bounded_at xs x ys hs

      -- The loop from a cursor that leaves `rest` of the rows.
      read_rest :
          (fuel : ℕ) (cursor : Bytes) (c : ℤ) (before rest : List A)
          → decode_cursor cursor ≡ ok c
          → matching ≡ before ++ rest
          → keep (λ r. is_after c (id_of r)) matching ≡ rest
          → length rest < fuel
          → read_all query fuel cursor ≡ some rest
      read_rest zero cursor c before rest decoded whole left enough = absurd (omega (arith, enough))
      read_rest (suc fuel) cursor c before rest decoded whole left enough =
          let n = normalize_cursor_limit limit in
          let page : query cursor ≡ ok (page_of rest) =
            query_page cursor c decoded ∙ ap (λ rows. ok (page_of rows)) left in
          elim (Bool-cases (ltb n (length rest))) [
            | inl more ↦
                let (ys, x, zs, split, first, less) =
                  take_last n rest (ltb→lt n (length rest) more)
                    (normalize_cursor_limit-positive limit) in
                let cut_rows = cut_part n rest (ltb→lt n (length rest) more) in
                let next_is : (page_of rest).next_cursor ≡ encode_cursor (id_of x) =
                  ap (λ r. r.1) cut_rows
                  ∙ ap (λ id. encode_cursor id) (ap (last_id id_of) first ∙ last_id-append ys x) in
                let there : matching ≡ (before ++ ys) ++ x ∷ zs =
                  whole ∙ ap (λ r. before ++ r) split ∙ sym (append_assoc before ys (x ∷ zs)) in
                let small =
                  bounded_at (before ++ ys) x zs
                    (subst (All (λ r. id_of r < int64_bound)) there bounded) in
                let next : read_all query fuel (encode_cursor (id_of x)) ≡ some zs =
                  read_rest fuel (encode_cursor (id_of x)) (pos (id_of x))
                    ((before ++ ys) ++ x ∷ []) zs (decode_cursor-encode_cursor (id_of x) small)
                    (there ∙ sym (append_assoc (before ++ ys) (x ∷ []) zs))
                    (subst (λ rows. keep (λ r. is_after (pos (id_of x)) (id_of r)) rows ≡ zs)
                      (sym there)
                      (keep-is_after id_of (before ++ ys) x zs
                        (subst (Ascending id_of) there ordered)))
                    (omega (arith, less, enough)) in
                read_all_next query fuel cursor (page_of rest) page zs
                  (ap is_empty next_is ∙ encode_cursor-full (id_of x))
                  (ap (read_all query fuel) next_is ∙ next)
                ∙ ap (λ rows. some (rows ++ zs)) (ap (λ r. r.0) cut_rows ∙ first)
                ∙ ap some (append_assoc ys (x ∷ []) zs ∙ sym split)
            | inr done ↦
                let cut_rows = cut_whole n rest (ground (arith, done)) in
                read_all_last query fuel cursor (page_of rest) page
                  (ap (λ r. is_empty r.1) cut_rows)
                ∙ ap (λ r. some r.0) cut_rows
          ]

    pub paged_lem : IsKeyed id_of table → IsPaged query matching
    unfolding paged decode_cursor
    paged_lem keyed =
        let positive =
          All-keep id_of (λ r. 0 < id_of r) matches (by_id id_of table)
            (All-by_id id_of (λ r. 0 < id_of r) table keyed.positive) in
        let bounded =
          All-keep id_of (λ r. id_of r < int64_bound) matches (by_id id_of table)
            (All-by_id id_of (λ r. id_of r < int64_bound) table keyed.bounded) in
        let ordered =
          keep-Ascending id_of matches (by_id id_of table)
            (by_id-Ascending id_of table keyed.distinct) in
        record {
          whole = λ fuel enough.
              read_rest ordered bounded fuel [] (pos 0) [] matching refl refl
                (keep-is_after_zero id_of matching positive) enough;
          total = λ cursor page h. total cursor page h;
        }
      where
        total :
            (cursor : Bytes) (page : PagedResult A)
            → query cursor ≡ ok page
            → page.total_count ≡ length matching
        total cursor page h =
            let (c, decoded, _) = bind-ok (decode_cursor cursor) _ h in
            let same : page ≡ page_of (keep (λ r. is_after c (id_of r)) matching) =
              ok_injective (sym h ∙ query_page cursor c decoded) in
            ap (λ p. p.total_count) same ∙ sym (length-by_id id_of matches table)
