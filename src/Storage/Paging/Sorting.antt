-- ===== src/Storage/Paging/Sorting.antt =====
-- Rows with different ids, in the order of their ids.
use seo_crawler_mcp.Prelude.{
  ℕ, ◌<◌, Bool, List, [], ◌∷◌, ◌++◌, if◌then◌else◌, ltb, ltb→lt, Bool-cases, length, keep, All, ◌≡◌,
  ◌≢◌, refl, sym, subst, inl, inr, arith,
}
use seo_crawler_mcp.Prelude.Int.{pos}
use seo_crawler_mcp.Storage.Paging.{is_after, insert_by_id, by_id}

module _ {A : Type 0} (id_of : A → ℕ) where
  abbrev pub Distinct : List A → Type 0
  Distinct [] = Unit {0}
  Distinct (x ∷ xs) = All (λ y. id_of x ≢ id_of y) xs × Distinct xs

  abbrev pub Ascending : List A → Type 0
  Ascending [] = Unit {0}
  Ascending (x ∷ xs) = All (λ y. id_of x < id_of y) xs × Ascending xs

  All-insert_by_id :
      (P : A → Type 0) (x : A) (ys : List A) → P x → All P ys → All P (insert_by_id id_of x ys)
  unfolding insert_by_id
  All-insert_by_id P x [] px ps = (px, tt)
  All-insert_by_id P x (y ∷ ys) px (py, ps) = elim (Bool-cases (ltb (id_of y) (id_of x))) [
    | inl e ↦
        subst (λ b. All P (if b then y ∷ insert_by_id id_of x ys else x ∷ y ∷ ys)) (sym e)
          (py, All-insert_by_id P x ys px ps)
    | inr e ↦
        subst (λ b. All P (if b then y ∷ insert_by_id id_of x ys else x ∷ y ∷ ys)) (sym e)
          (px, (py, ps))
  ]

  pub All-by_id : (P : A → Type 0) (xs : List A) → All P xs → All P (by_id id_of xs)
  unfolding by_id
  All-by_id P [] h = tt
  All-by_id P (x ∷ xs) (px, ps) = All-insert_by_id P x (by_id id_of xs) px (All-by_id P xs ps)

  pub All-keep : (P : A → Type 0) (p : A → Bool) (xs : List A) → All P xs → All P (keep p xs)
  All-keep P p [] h = tt
  All-keep P p (x ∷ xs) (px, ps) = elim (Bool-cases (p x)) [
    | inl e ↦
        subst (λ b. All P (if b then x ∷ keep p xs else keep p xs)) (sym e) (px, All-keep P p xs ps)
    | inr e ↦
        subst (λ b. All P (if b then x ∷ keep p xs else keep p xs)) (sym e) (All-keep P p xs ps)
  ]

  below-All :
      (n m : ℕ) → n < m → (ys : List A) → All (λ y. m < id_of y) ys → All (λ y. n < id_of y) ys
  below-All n m lt [] h = tt
  below-All n m lt (y ∷ ys) (h, hs) = (omega (arith, lt, h), below-All n m lt ys hs)

  insert_by_id-Ascending :
      (x : A) (ys : List A)
      → All (λ y. id_of x ≢ id_of y) ys
      → Ascending ys
      → Ascending (insert_by_id id_of x ys)
  unfolding insert_by_id
  insert_by_id-Ascending x [] apart h = (tt, tt)
  insert_by_id-Ascending x (y ∷ ys) (apart, aparts) (least, h) =
      elim (Bool-cases (ltb (id_of y) (id_of x))) [
        | inl e ↦
            subst (λ b. Ascending (if b then y ∷ insert_by_id id_of x ys else x ∷ y ∷ ys)) (sym e)
              (
                All-insert_by_id (λ z. id_of y < id_of z) x ys (ltb→lt (id_of y) (id_of x) e) least,
                insert_by_id-Ascending x ys aparts h,
              )
        | inr e ↦
            let near : id_of x < id_of y = ground (arith, e, apart) in
            subst (λ b. Ascending (if b then y ∷ insert_by_id id_of x ys else x ∷ y ∷ ys)) (sym e)
              ((near, below-All (id_of x) (id_of y) near ys least), (least, h))
      ]

  pub by_id-Ascending : (xs : List A) → Distinct xs → Ascending (by_id id_of xs)
  unfolding by_id
  by_id-Ascending [] h = tt
  by_id-Ascending (x ∷ xs) (apart, h) =
      insert_by_id-Ascending x (by_id id_of xs) (All-by_id (λ y. id_of x ≢ id_of y) xs apart)
        (by_id-Ascending xs h)

  pub keep-Ascending : (p : A → Bool) (xs : List A) → Ascending xs → Ascending (keep p xs)
  keep-Ascending p [] h = tt
  keep-Ascending p (x ∷ xs) (least, h) = elim (Bool-cases (p x)) [
    | inl e ↦
        subst (λ b. Ascending (if b then x ∷ keep p xs else keep p xs)) (sym e)
          (All-keep (λ y. id_of x < id_of y) p xs least, keep-Ascending p xs h)
    | inr e ↦
        subst (λ b. Ascending (if b then x ∷ keep p xs else keep p xs)) (sym e)
          (keep-Ascending p xs h)
  ]

  -- Counting does not depend on the order.
  length-insert_by_id :
      (p : A → Bool) (x : A) (ys : List A)
      → length (keep p (insert_by_id id_of x ys)) ≡ length (keep p (x ∷ ys))
  unfolding insert_by_id
  length-insert_by_id p x [] = refl
  length-insert_by_id p x (y ∷ ys) = let ih = length-insert_by_id p x ys in ground arith

  pub length-by_id :
      (p : A → Bool) (xs : List A) → length (keep p (by_id id_of xs)) ≡ length (keep p xs)
  unfolding by_id
  length-by_id p [] = refl
  length-by_id p (x ∷ xs) =
      let ih = length-by_id p xs in let i = length-insert_by_id p x (by_id id_of xs) in ground arith

  keep-All :
      (c : ℕ) (xs : List A)
      → All (λ y. c < id_of y) xs
      → keep (λ r. is_after (pos c) (id_of r)) xs ≡ xs
  unfolding is_after
  keep-All c [] h = refl
  keep-All c (x ∷ xs) (h, hs) = let ih = keep-All c xs hs in ground (arith, h)

  pub keep-is_after_zero :
      (xs : List A) → All (λ y. 0 < id_of y) xs → keep (λ r. is_after (pos 0) (id_of r)) xs ≡ xs
  keep-is_after_zero = keep-All 0

  -- What comes after the id of a row of an ascending list.
  pub keep-is_after :
      (xs : List A) (x : A) (ys : List A)
      → Ascending (xs ++ x ∷ ys)
      → keep (λ r. is_after (pos (id_of x)) (id_of r)) (xs ++ x ∷ ys) ≡ ys
  unfolding is_after
  keep-is_after [] x ys (least, h) = let rest = keep-All (id_of x) ys least in ground arith
  keep-is_after (w ∷ xs) x ys (least, h) =
      let ih = keep-is_after xs x ys h in
      let near : id_of w < id_of x = middle xs x ys least in ground arith
    where
      middle :
          {n : ℕ} (xs : List A) (x : A) (ys : List A)
          → All (λ y. n < id_of y) (xs ++ x ∷ ys)
          → n < id_of x
      middle [] x ys (h, hs) = h
      middle (v ∷ xs) x ys (h, hs) = middle xs x ys hs
