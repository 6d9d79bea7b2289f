-- ===== src/UrlUtil/FrontierKey/Params.antt =====
-- Removing ignored query parameters.
use seo_crawler_mcp.Prelude.{
  Bool, true, false, List, [], ◌∷◌, ◌++◌, Bytes, codes, ◌-◌, length, take, drop, take-append,
  take-append-drop, drop-append, length-append, bytes_eq_refl, keep, keep_idem, ◌≡◌, refl, sym, ap,
  ◌∙◌, subst, ◌↔◌, inl, inr, arith, All, Any, here, there, Bool-cases, has_prefix, has_suffix,
  bytes_eq_iff,
}
use seo_crawler_mcp.Prelude.Split.{split, join, split-join, split-HasNoByte, HasNoByte}
use seo_crawler_mcp.UrlUtil.FrontierKey.{
  ignores, should_ignore_param, kept_pairs, kept_suffix, key_query,
}

keep-All : (P : Bytes → Type 0) (p : Bytes → Bool) (xs : List Bytes) → All P xs → All P (keep p xs)
keep-All P p [] h = tt
keep-All P p (x ∷ xs) h = elim (Bool-cases (p x)) [
  | inl e ↦ rw e (h.0, keep-All P p xs h.1)
  | inr e ↦ rw e (keep-All P p xs h.1)
]

keep-append : (p : Bytes → Bool) (xs ys : List Bytes) → keep p (xs ++ ys) ≡ keep p xs ++ keep p ys
keep-append p [] ys = refl
keep-append p (x ∷ xs) ys = ground (arith, keep-append p xs ys)

keep-All_pass : (p : Bytes → Bool) (xs : List Bytes) → All (λ x. p x ≡ true) (keep p xs)
keep-All_pass p [] = tt
keep-All_pass p (x ∷ xs) = elim (Bool-cases (p x)) [
  | inl e ↦ rw e (e, keep-All_pass p xs)
  | inr e ↦ rw e (keep-All_pass p xs)
]

keep_drop :
    (p : Bytes → Bool) (e : Bytes) (ys : List Bytes) → p e ≡ false → keep p (e ∷ ys) ≡ keep p ys
keep_drop p e ys h = rw h

-- A parameter is ignored exactly when some pattern is its name, or is a prefix of it and a star.
pub data Ignored (key : Bytes) : Bytes → Type 0 where
  exact : {p : Bytes} → has_suffix p (codes "*") ≡ false → key ≡ p → Ignored key p
  wildcard : {p : Bytes} (q : Bytes) → p ≡ q ++ codes "*" → has_prefix key q ≡ true → Ignored key p

kept_suffix-cons : (x : Bytes) (xs : List Bytes) → kept_suffix (x ∷ xs) ≡ b'?' ∷ join b'&' (x ∷ xs)
unfolding kept_suffix
kept_suffix-cons x xs = refl

-- What a kept query reads back as: the kept parameters.
kept-HasNoByte :
    (ignore : List Bytes) (q : Bytes) → All (HasNoByte b'&') (kept_pairs ignore (split b'&' q))
unfolding kept_pairs
kept-HasNoByte ignore q = keep-All (HasNoByte b'&') _ (split b'&' q) (split-HasNoByte b'&' q)

kept_pairs_idem :
    (ignore pairs : List Bytes)
    → kept_pairs ignore (kept_pairs ignore pairs) ≡ kept_pairs ignore pairs
unfolding kept_pairs
kept_pairs_idem ignore pairs = keep_idem _ pairs

kept_suffix-inv :
    (k : List Bytes) (r : Bytes)
    → kept_suffix k ≡ b'?' ∷ r
    → (x : Bytes) × (xs : List Bytes) × (k ≡ x ∷ xs) × (join b'&' (x ∷ xs) ≡ r)
unfolding kept_suffix
kept_suffix-inv [] r h = absurd (cc h)
kept_suffix-inv (x ∷ xs) r h = (x, xs, refl, cc)

-- A query that a key has after its "?" gives the same key again: it has no ignored parameter.
pub key_query_idem :
    (ignore : List Bytes) (q r : Bytes)
    → key_query ignore q ≡ b'?' ∷ r
    → key_query ignore r ≡ b'?' ∷ r
unfolding key_query
key_query_idem ignore q r h =
    let (x, xs, e, j) = kept_suffix-inv (kept_pairs ignore (split b'&' q)) r h in
    let clean = subst (All (HasNoByte b'&')) e (kept-HasNoByte ignore q) in
    let again = ap (split b'&') (sym j) ∙ split-join b'&' x xs clean in
    let kept = ap (kept_pairs ignore) (sym e) ∙ kept_pairs_idem ignore _ ∙ e in
    ap (λ t. kept_suffix (kept_pairs ignore t)) again
    ∙ ap kept_suffix kept
    ∙ kept_suffix-cons x xs
    ∙ ap (◌∷◌ b'?') j

-- What a key has of a query with these parameters: nothing without any.
abbrev pub query_of : List Bytes → List Bytes → Bytes
query_of ignore [] = []
query_of ignore (pair ∷ pairs) = key_query ignore (join b'&' (pair ∷ pairs))

star_split : (p : Bytes) → has_suffix p (codes "*") ≡ true → p ≡ take (length p - 1) p ++ codes "*"
unfolding has_suffix
star_split p h =
    sym (take-append-drop (length p - 1) p)
    ∙ ap (◌++◌ (take (length p - 1) p))
        ((bytes_eq_iff (drop (length p - 1) p) (codes "*")).0 (ground arith))

star_length : (q : Bytes) → length (q ++ codes "*") - 1 ≡ length q
star_length q = omega (arith, length-append {0} q (codes "*"))

star_suffix : (q : Bytes) → has_suffix (q ++ codes "*") (codes "*") ≡ true
unfolding has_suffix
star_suffix q = rw (star_length q) (
    rw (drop-append q (codes "*"))
      (ground (arith, length-append q (codes "*"), bytes_eq_refl (codes "*"))))

ignores_sound : (key p : Bytes) → ignores key p ≡ true → Ignored key p
unfolding ignores
ignores_sound key p h = elim (Bool-cases (has_suffix p (codes "*"))) [
  | inl e ↦ wildcard (take (length p - 1) p) (star_split p e) (ground arith)
  | inr e ↦ exact e ((bytes_eq_iff key p).0 (ground arith))
]

ignores_complete : {key p : Bytes} → Ignored key p → ignores key p ≡ true
unfolding ignores
ignores_complete (exact {p} e h) = rw e ((bytes_eq_iff _ p).1 h)
ignores_complete (wildcard {p} q e h) =
    rw e (rw (star_suffix q) (rw (star_length q) (rw (take-append q (codes "*")) h)))

should_ignore_sound :
    (key : Bytes) (ps : List Bytes) → should_ignore_param key ps ≡ true → Any (Ignored key) ps
unfolding should_ignore_param
should_ignore_sound key [] h = absurd (cc h)
should_ignore_sound key (p ∷ ps) h = elim (Bool-cases (ignores key p)) [
  | inl e ↦ here (ignores_sound key p e)
  | inr e ↦ there (should_ignore_sound key ps (ground arith))
]

should_ignore_complete :
    {key : Bytes} {ps : List Bytes} → Any (Ignored key) ps → should_ignore_param key ps ≡ true
unfolding should_ignore_param
should_ignore_complete (here {xs = ps} i) = rw (ignores_complete i)
should_ignore_complete {key} (there {x = p} {xs = ps} a) = ground (arith, should_ignore_complete a)

-- A key is ignored exactly when one of the patterns is the key, and ends in no star, or is a prefix
-- of the key and a star.
pub should_ignore_param_iff :
    (key : Bytes) (ps : List Bytes) → (should_ignore_param key ps ≡ true) ↔ Any (Ignored key) ps
should_ignore_param_iff key ps = (should_ignore_sound key ps, should_ignore_complete)
