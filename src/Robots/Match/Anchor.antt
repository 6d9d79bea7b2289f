-- ===== src/Robots/Match/Anchor.antt =====
-- What matchPattern decides: exactly the fits of a pattern with no anchor; with an anchor, only fits,
-- and not all of them.
use seo_crawler_mcp.Prelude.{
  ℕ, ◌-◌, true, false, none, some, List, [], ◌∷◌, ◌++◌, Bytes, codes, length, take, drop,
  take-append-drop, bytes_eq, has_prefix, has_suffix, contains, index, has_prefix-append,
  has_prefix-split, ◌≡◌, ◌≢◌, ◌↔◌, ◌⊎◌, inl, inr, refl, sym, ap, subst, ◌∙◌, arith, Bool-cases,
  Option-cases, bytes_eq_iff, ◌==◌,
}
use mathlib.Core.List.{append-nil}
use seo_crawler_mcp.Prelude.Split.{split, HasNoByte, split_of_HasNoByte, split-cons, cons_head}
use seo_crawler_mcp.Robots.Match.{has_anchor, unanchored, match_parts, match_pattern}
use seo_crawler_mcp.Robots.Match.Greedy.{Fits, FitsFirst, match_first_sound, match_first_complete}

-- A one-byte text is contained exactly where the byte is.
contains-false : (s : Bytes) (c : ℕ) → contains s (c ∷ []) ≡ false → HasNoByte c s
unfolding contains index has_prefix
contains-false [] c h = tt
contains-false (x ∷ s) c h = (ground arith, contains-false s c (ground arith))

-- A text that ends in a byte is what stands before it, and the byte.
suffix_split :
    (p : Bytes) (c : ℕ) → has_suffix p (c ∷ []) ≡ true → p ≡ take (length p - 1) p ++ c ∷ []
unfolding has_suffix
suffix_split p c h =
    sym (take-append-drop (length p - 1) p)
    ∙ ap (◌++◌ (take (length p - 1) p))
        ((bytes_eq_iff (drop (length p - 1) p) (c ∷ [])).0 (ground arith))

-- Without a star the fit is a prefix.
no_star_fits :
    (p path : Bytes)
    → contains p (codes "*") ≡ false
    → (has_prefix path p ≡ true) ↔ ((rest : Bytes) × FitsFirst (split b'*' p) path rest)
no_star_fits p path n = rw (split_of_HasNoByte b'*' p (contains-false p b'*' n)) (
  λ h. (drop (length p) path, (drop (length p) path, has_prefix-split path p h, refl)),
  λ h. rw (h.1.1) (has_prefix-append p h.1.0),
)

module _ (path pattern : Bytes) (free : has_anchor pattern ≡ false) where
  free_plain :
      contains (unanchored pattern) (codes "*") ≡ false
      → match_pattern path pattern ≡ has_prefix path (unanchored pattern)
  unfolding match_pattern
  free_plain n = rw free (rw n refl)

  free_star_some :
      (rest : Bytes)
      → contains (unanchored pattern) (codes "*") ≡ true
      → match_parts true (split b'*' (unanchored pattern)) path ≡ some rest
      → match_pattern path pattern ≡ true
  unfolding match_pattern
  free_star_some rest n e = ground arith

  free_star_none :
      contains (unanchored pattern) (codes "*") ≡ true
      → match_parts true (split b'*' (unanchored pattern)) path ≡ none
      → match_pattern path pattern ≡ false
  unfolding match_pattern
  free_star_none n e = ground arith

  -- A pattern without an anchor matches exactly where its parts, the pieces between its stars, stand
  -- in the path in their order, the first at the beginning.
  pub match_pattern_iff :
      (match_pattern path pattern ≡ true)
      ↔ ((rest : Bytes) × FitsFirst (split b'*' (unanchored pattern)) path rest)
  match_pattern_iff = elim (Bool-cases (contains (unanchored pattern) (codes "*"))) [
    | inr n ↦ rw (free_plain n) (no_star_fits (unanchored pattern) path n)
    | inl n ↦ elim (Option-cases (match_parts true (split b'*' (unanchored pattern)) path)) [
      | inl e ↦ (
        λ h. absurd (cc (h, free_star_none n e)),
        λ h.
            let (r, f) = match_first_complete (split b'*' (unanchored pattern)) path h.0 h.1 in
            absurd (cc (e, f)),
      )
      | inr (r, e) ↦ (
        λ h. (r, match_first_sound (split b'*' (unanchored pattern)) path r e),
        λ h. free_star_some r n e,
      )
    ]
  ]

-- With an anchor.
split-snoc : (c : ℕ) (q : Bytes) → split c (q ++ c ∷ []) ≡ split c q ++ [] ∷ []
unfolding split cons_head
split-snoc c [] = ground arith
split-snoc c (x ∷ q) =
    let (t, ts, e) = split-cons c q in
    elim (Bool-cases (x == c)) [
      | inl f ↦ rw f (ap (◌∷◌ []) (split-snoc c q))
      | inr f ↦ rw f (rw (split-snoc c q) (rw e refl))
    ]

Fits-trailing :
    (parts : List Bytes) (text rest : Bytes)
    → Fits (parts ++ [] ∷ []) text rest
    → Fits (parts ++ [] ∷ []) text []
Fits-trailing [] text rest h = (text, [], sym (append-nil text), refl)
Fits-trailing (part ∷ parts) text rest (gap, mid, e, h) =
    (gap, mid, e, Fits-trailing parts mid rest h)

FitsFirst-trailing :
    (q text rest : Bytes)
    → FitsFirst (split b'*' q ++ [] ∷ []) text rest
    → FitsFirst (split b'*' q ++ [] ∷ []) text []
FitsFirst-trailing q text rest h =
    let (t, ts, e) = split-cons b'*' q in
    let (mid, f, g) = subst (λ s. FitsFirst (s ++ [] ∷ []) text rest) e h in
    subst (λ s. FitsFirst (s ++ [] ∷ []) text []) (sym e) (mid, f, Fits-trailing ts mid rest g)

module _ (path pattern : Bytes) (anchored : has_anchor pattern ≡ true) where
  anchored-inv :
      match_pattern path pattern ≡ true
      → ((contains (unanchored pattern) (codes "*") ≡ false) × (path ≡ unanchored pattern))
        ⊎ ((rest : Bytes) × (match_parts true (split b'*' (unanchored pattern)) path ≡ some rest)
            × ((has_suffix (unanchored pattern) (codes "*") ≡ true) ⊎ (rest ≡ [])))
  unfolding match_pattern
  anchored-inv h = elim (Bool-cases (contains (unanchored pattern) (codes "*"))) [
    | inr n ↦ inl (n, ground (arith, bytes_eq_iff path (unanchored pattern)))
    | inl n ↦ elim (Option-cases (match_parts true (split b'*' (unanchored pattern)) path)) [
      | inl e ↦ absurd (ground arith)
      | inr (r, e) ↦ inr (r, e, ground arith)
    ]
  ]

  -- Where an anchored pattern matches, its parts stand in the path in their order, the first at the
  -- beginning and the last at the end.
  pub match_anchored_sound :
      match_pattern path pattern ≡ true → FitsFirst (split b'*' (unanchored pattern)) path []
  match_anchored_sound h = elim (anchored-inv h) [
    | inl (n, e) ↦
        rw
          (split_of_HasNoByte b'*' (unanchored pattern)
            (contains-false (unanchored pattern) b'*' n))
          ([], e ∙ sym (append-nil (unanchored pattern)), refl)
    | inr (rest, e, inr empty) ↦
        subst (FitsFirst (split b'*' (unanchored pattern)) path) empty
          (match_first_sound (split b'*' (unanchored pattern)) path rest e)
    | inr (rest, e, inl star) ↦
        trailing_star rest (match_first_sound (split b'*' (unanchored pattern)) path rest e)
          (suffix_split (unanchored pattern) b'*' star)
  ]
    where
      trailing_star :
          (rest : Bytes)
          → FitsFirst (split b'*' (unanchored pattern)) path rest
          → unanchored pattern
            ≡ take (length (unanchored pattern) - 1) (unanchored pattern) ++ b'*' ∷ []
          → FitsFirst (split b'*' (unanchored pattern)) path []
      trailing_star rest f e =
          let q = take (length (unanchored pattern) - 1) (unanchored pattern) in
          let whole = ap (split b'*') e ∙ split-snoc b'*' q in
          subst (λ s. FitsFirst s path []) (sym whole)
            (FitsFirst-trailing q path rest (subst (λ s. FitsFirst s path rest) whole f))

-- For every byte `c` but the star, "/*c$" does not match "/cc", although the pattern fits that path
-- to its end.
pub match_anchored_misses :
    (c : ℕ)
    → c ≢ b'*'
    → (match_pattern (b'/' ∷ c ∷ c ∷ []) (b'/' ∷ b'*' ∷ c ∷ b'$' ∷ []) ≡ false)
      × FitsFirst (split b'*' (unanchored (b'/' ∷ b'*' ∷ c ∷ b'$' ∷ []))) (b'/' ∷ c ∷ c ∷ []) []
unfolding match_pattern match_parts unanchored has_anchor has_suffix bytes_eq contains index split
    cons_head has_prefix
match_anchored_misses c n =
    let other : (c == b'*') ≡ false = ground arith in
    (ground arith, (c ∷ c ∷ [], ground arith, rw other (c ∷ [], [], refl, refl)))
