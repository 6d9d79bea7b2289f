-- ===== src/Robots/Match/Greedy.antt =====
-- Taking every part at its first place finds a match wherever there is one, if the pattern has no
-- anchor.
use seo_crawler_mcp.Prelude.{
  is_empty, ℕ, zero, suc, ◌+◌, Bool, true, false, none, some, List, [], ◌∷◌, ◌++◌, Bytes, length,
  take, drop, drop-append, has_prefix, index, has_prefix-append, has_prefix-split, ◌≤◌,
  length-append, ◌≡◌, ◌⊎◌, inl, inr, refl, sym, ap, ◌∙◌, arith, Bool-cases, Option-cases,
}
use mathlib.Core.Option
use native.Mathlib.Nat.{zero-add, suc-add}
use mathlib.Core.List.{append_assoc}
use seo_crawler_mcp.Robots.Match.{match_parts}

-- `Fits parts text rest`: the parts stand in the text in order, one after another with any gaps
-- before them, and `rest` follows the last.
abbrev pub Fits : List Bytes → Bytes → Bytes → Type 0
Fits [] text rest = text ≡ rest
Fits (part ∷ parts) text rest =
    (gap : Bytes) × (mid : Bytes) × (text ≡ gap ++ (part ++ mid)) × Fits parts mid rest

-- The first part stands at the beginning.
abbrev pub FitsFirst : List Bytes → Bytes → Bytes → Type 0
FitsFirst [] text rest = text ≡ rest
FitsFirst (part ∷ parts) text rest = (mid : Bytes) × (text ≡ part ++ mid) × Fits parts mid rest

drop-zero : (s : Bytes) (n : ℕ) → drop (0 + n) s ≡ drop n s
drop-zero s n = rw zero-add

drop-suc : (x : ℕ) (s : Bytes) (j n : ℕ) → drop (suc j + n) (x ∷ s) ≡ drop (j + n) s
drop-suc x s j n = rw (suc-add j n)

index_here : (s t : Bytes) → has_prefix s t ≡ true → index s t ≡ some 0
unfolding index
index_here [] t h = rw h
index_here (x ∷ s) t h = rw h

index-suc :
    (x : ℕ) (s t : Bytes) (j : ℕ)
    → has_prefix (x ∷ s) t ≡ false
    → index s t ≡ some j
    → index (x ∷ s) t ≡ some (suc j)
unfolding index
index-suc x s t j h e = rw h (rw e refl)

index-inv :
    (x : ℕ) (s t : Bytes) (i : ℕ)
    → has_prefix (x ∷ s) t ≡ false
    → index (x ∷ s) t ≡ some i
    → (j : ℕ) × (index s t ≡ some j) × (i ≡ suc j)
unfolding index
index-inv x s t i h e = let (j, f, g) = (Option.map-eq-some_iff _ _).0 (rw h at e) in (j, f, sym g)

index_here_split :
    (s t : Bytes) (i : ℕ)
    → has_prefix s t ≡ true
    → index s t ≡ some i
    → s ≡ take i s ++ (t ++ drop (i + length t) s)
index_here_split s t i e h =
    let z : i ≡ 0 = ground (arith, index_here s t e) in
    rw z (rw (drop-zero s (length t)) (has_prefix-split s t e))

index-nil : (t : Bytes) (i : ℕ) → index [] t ≡ some i → has_prefix [] t ≡ true
unfolding index
index-nil t i h = ground arith

-- A text found at `i` splits there.
index-split :
    (s t : Bytes) (i : ℕ) → index s t ≡ some i → s ≡ take i s ++ (t ++ drop (i + length t) s)
index-split [] t i h = index_here_split [] t i (index-nil t i h) h
index-split (x ∷ s) t i h = elim (Bool-cases (has_prefix (x ∷ s) t)) [
  | inl e ↦ index_here_split (x ∷ s) t i e h
  | inr e ↦
      let (j, f, g) = index-inv x s t i e h in
      rw g (rw (drop-suc x s j (length t)) (ap (◌∷◌ x) (index-split s t j f)))
]

-- A text that occurs behind a gap is found, no later than there.
index-le : (gap t mid : Bytes) → (i : ℕ) × (index (gap ++ (t ++ mid)) t ≡ some i) × (i ≤ length gap)
index-le [] t mid = (0, index_here (t ++ mid) t (has_prefix-append t mid), omega arith)
index-le (x ∷ gap) t mid = elim (Bool-cases (has_prefix (x ∷ gap ++ (t ++ mid)) t)) [
  | inl e ↦ (0, index_here (x ∷ gap ++ (t ++ mid)) t e, omega arith)
  | inr e ↦
      let (j, f, g) = index-le gap t mid in
      (suc j, index-suc x (gap ++ (t ++ mid)) t j e f, omega arith)
]

drop-append_le : (n : ℕ) (xs ys : Bytes) → n ≤ length xs → drop n (xs ++ ys) ≡ drop n xs ++ ys
drop-append_le zero xs ys h = refl
drop-append_le (suc n) [] ys h = absurd (omega arith)
drop-append_le (suc n) (x ∷ xs) ys h = drop-append_le n xs ys (omega arith)

-- A longer text to look in does no harm: the parts fit behind a longer gap.
Fits-extend :
    (parts : List Bytes) (more text rest : Bytes)
    → Fits parts text rest
    → (r : Bytes) × Fits parts (more ++ text) r
Fits-extend [] more text rest h = (more ++ text, refl)
Fits-extend (part ∷ parts) more text rest (gap, mid, e, h) =
    (rest, (more ++ gap, mid, rw e (sym (append_assoc more gap (part ++ mid))), h))

-- The steps of the loop.
module _ (part : Bytes) (parts : List Bytes) (text : Bytes) where
  step_empty :
      (first : Bool)
      → part ≡ []
      → match_parts first (part ∷ parts) text ≡ match_parts false parts text
  unfolding match_parts
  step_empty first e = rw e refl

  step_found :
      (i : ℕ)
      → is_empty part ≡ false
      → index text part ≡ some i
      → match_parts false (part ∷ parts) text
        ≡ match_parts false parts (drop (i + length part) text)
  unfolding match_parts
  step_found i n e = rw n (rw (e, match_parts) refl)

  step_missing :
      is_empty part ≡ false → index text part ≡ none → match_parts false (part ∷ parts) text ≡ none
  unfolding match_parts
  step_missing n e = rw n (rw (e, match_parts) refl)

  step_first :
      is_empty part ≡ false
      → has_prefix text part ≡ true
      → match_parts true (part ∷ parts) text ≡ match_parts false parts (drop (length part) text)
  unfolding match_parts
  step_first n e = rw n (rw e refl)

  step_first_missing :
      is_empty part ≡ false
      → has_prefix text part ≡ false
      → match_parts true (part ∷ parts) text ≡ none
  unfolding match_parts
  step_first_missing n e = rw n (rw e refl)

match_parts_nil :
    (first : Bool) (text rest : Bytes) → match_parts first [] text ≡ some rest → text ≡ rest
unfolding match_parts
match_parts_nil first text rest h = ground arith

part_cases : (part : Bytes) → (part ≡ []) ⊎ (is_empty part ≡ false)
part_cases [] = inl refl
part_cases (c ∷ part) = inr refl

pub match_parts_sound :
    (parts : List Bytes) (text rest : Bytes)
    → match_parts false parts text ≡ some rest
    → Fits parts text rest
match_parts_sound [] text rest h = match_parts_nil false text rest h
match_parts_sound (part ∷ parts) text rest h = elim (part_cases part) [
  | inl e ↦ (
    [],
    text,
    rw e refl,
    match_parts_sound parts text rest (sym (step_empty part parts text false e) ∙ h),
  )
  | inr n ↦ elim (Option-cases (index text part)) [
    | inl e ↦ absurd (cc (h, step_missing part parts text n e))
    | inr (i, e) ↦ (
      take i text,
      drop (i + length part) text,
      index-split text part i e,
      match_parts_sound parts _ rest (sym (step_found part parts text i n e) ∙ h),
    )
  ]
]

pub match_parts_complete :
    (parts : List Bytes) (text rest : Bytes)
    → Fits parts text rest
    → (r : Bytes) × (match_parts false parts text ≡ some r)
match_parts_complete [] text rest h = (text, unfold match_parts in refl)
match_parts_complete (part ∷ parts) text rest (gap, mid, e, h) = elim (part_cases part) [
  | inl p ↦
      let (r, f) = Fits-extend parts gap mid rest h in
      let (r', g) = match_parts_complete parts (gap ++ mid) r f in
      (r', step_empty part parts text false p ∙ ap (match_parts false parts) (rw e (rw p refl)) ∙ g)
  | inr n ↦
      let (i, found, le) = index-le gap part mid in
      let more = drop (i + length part) (gap ++ part) in
      let (r, f) = Fits-extend parts more mid rest h in
      let (r', g) = match_parts_complete parts (more ++ mid) r f in
      let short : i + length part ≤ length (gap ++ part) =
        omega (arith, length-append {0} gap part) in
      let cut : drop (i + length part) text ≡ more ++ mid =
        ap (drop (i + length part)) (e ∙ sym (append_assoc gap part mid))
        ∙ drop-append_le (i + length part) (gap ++ part) mid short in
      (r', step_found part parts text i n (rw e found) ∙ ap (match_parts false parts) cut ∙ g)
]

pub match_first_sound :
    (parts : List Bytes) (text rest : Bytes)
    → match_parts true parts text ≡ some rest
    → FitsFirst parts text rest
match_first_sound [] text rest h = match_parts_nil true text rest h
match_first_sound (part ∷ parts) text rest h = elim (part_cases part) [
  | inl e ↦ (
    text,
    rw e refl,
    match_parts_sound parts text rest (sym (step_empty part parts text true e) ∙ h),
  )
  | inr n ↦ elim (Bool-cases (has_prefix text part)) [
    | inr e ↦ absurd (cc (h, step_first_missing part parts text n e))
    | inl e ↦ (
      drop (length part) text,
      has_prefix-split text part e,
      match_parts_sound parts _ rest (sym (step_first part parts text n e) ∙ h),
    )
  ]
]

pub match_first_complete :
    (parts : List Bytes) (text rest : Bytes)
    → FitsFirst parts text rest
    → (r : Bytes) × (match_parts true parts text ≡ some r)
match_first_complete [] text rest h = (text, unfold match_parts in refl)
match_first_complete (part ∷ parts) text rest (mid, e, h) =
    let (r, g) = match_parts_complete parts mid rest h in
    elim (part_cases part) [
      | inl p ↦
          (r, step_empty part parts text true p ∙ ap (match_parts false parts) (e ∙ rw p refl) ∙ g)
      | inr n ↦ (
        r,
        step_first part parts text n (rw e (has_prefix-append part mid))
            ∙ ap (match_parts false parts) (ap (drop (length part)) e ∙ drop-append part mid)
            ∙ g,
      )
    ]
