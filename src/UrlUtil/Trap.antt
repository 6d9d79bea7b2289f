-- ===== src/UrlUtil/Trap.antt =====
-- HasRepeatedPathSegments (internal/urlutil/normalize.go): three equal segments in a row.
use seo_crawler_mcp.Prelude.{
  is_empty, ℕ, ◌+◌, Bool, true, false, none, some, List, [], ◌∷◌, Bytes, leb, if◌then◌else◌, ◌≡◌,
  ◌≢◌, ◌↔◌, ◌⊎◌, inl, inr, refl, sym, subst, ◌∙◌, arith, bytes_eq, bytes_eq_iff, Bool-cases,
}
use seo_crawler_mcp.Prelude.Split.{split}
use seo_crawler_mcp.UrlUtil.Normalize.{Parser, Url}

-- The loop from a segment on, with the count and the segment before it.
unfoldable pub count_repeats : ℕ → Bytes → List Bytes → Bool
count_repeats count previous [] = false
count_repeats count previous (s ∷ ss) =
    let restarted = count_repeats 1 s ss in
    let counted = count_repeats (count + 1) s ss in
    if is_empty s
    then restarted
    else if bytes_eq s previous
    then (if leb 3 (count + 1) then true else counted)
    else restarted

unfoldable pub repeats : List Bytes → Bool
repeats [] = false
repeats (s ∷ ss) = count_repeats 1 s ss

unfoldable pub has_repeated_path_segments : Parser → Bytes → Bool
has_repeated_path_segments parse raw = elim (parse raw) [
  | none ↦ false
  | some u ↦ repeats (split b'/' u.path)
]

-- Somewhere three segments in a row are one text that is not empty.
abbrev pub HasTriple : List Bytes → Type 0
HasTriple [] = ⊥
HasTriple (s ∷ []) = ⊥
HasTriple (s ∷ t ∷ []) = ⊥
HasTriple (s ∷ t ∷ u ∷ ss) = ((s ≢ []) × (t ≡ s) × (u ≡ s)) ⊎ HasTriple (t ∷ u ∷ ss)

HasTriple-tail : (s : Bytes) (ss : List Bytes) → HasTriple ss → HasTriple (s ∷ ss)
HasTriple-tail s (t ∷ u ∷ v ∷ ss) h = inr h
HasTriple-tail s (t ∷ u ∷ []) h = absurd h
HasTriple-tail s (t ∷ []) h = absurd h
HasTriple-tail s [] h = absurd h

is_empty-ne : (s : Bytes) → is_empty s ≡ false → s ≢ []
is_empty-ne s h = ground arith

-- Both counts that the loop meets: 1 after a segment of any kind, 2 after two equal segments.
count_repeats_sound :
    (p : Bytes) (ss : List Bytes)
    → (count_repeats 1 p ss ≡ true → HasTriple (p ∷ ss))
      × (count_repeats 2 p ss ≡ true → p ≢ [] → HasTriple (p ∷ p ∷ ss))
unfolding count_repeats
count_repeats_sound p [] = (λ h. cc, λ h. cc)
count_repeats_sound p (s ∷ ss) =
    let (one, two) = count_repeats_sound s ss in
    elim (Bool-cases (is_empty s)) [
      | inl e ↦ (
        λ h. HasTriple-tail p (s ∷ ss) (one (rw e at h)),
        λ h n. HasTriple-tail p (p ∷ s ∷ ss) (HasTriple-tail p (s ∷ ss) (one (rw e at h))),
      )
      | inr e ↦ elim (Bool-cases (bytes_eq s p)) [
        | inl f ↦
            let same = (bytes_eq_iff s p).0 f in
            (
              λ h.
                  subst (λ q. HasTriple (q ∷ s ∷ ss)) same (two (rw (e, f) at h) (is_empty-ne s e)),
              λ h n. inl (n, refl, same),
            )
        | inr f ↦ (
          λ h. HasTriple-tail p (s ∷ ss) (one (rw (e, f) at h)),
          λ h n. HasTriple-tail p (p ∷ s ∷ ss) (HasTriple-tail p (s ∷ ss) (one (rw (e, f) at h))),
        )
      ]
    ]

count_repeats_mono :
    (p : Bytes) (ss : List Bytes) → count_repeats 1 p ss ≡ true → count_repeats 2 p ss ≡ true
unfolding count_repeats
count_repeats_mono p [] h = cc
count_repeats_mono p (s ∷ ss) h = ground arith

ne-is_empty : (s : Bytes) → s ≢ [] → is_empty s ≡ false
ne-is_empty [] n = absurd (n refl)
ne-is_empty (c ∷ s) n = refl

-- The loop's step at a segment: a third equal one, a second equal one, and any.
third : (p t : Bytes) (ss : List Bytes) → t ≢ [] → t ≡ p → count_repeats 2 p (t ∷ ss) ≡ true
unfolding count_repeats
third p t ss n e = rw (ne-is_empty t n) (rw ((bytes_eq_iff t p).1 e))

second :
    (p s : Bytes) (ss : List Bytes)
    → s ≢ []
    → s ≡ p
    → count_repeats 2 s ss ≡ true
    → count_repeats 1 p (s ∷ ss) ≡ true
unfolding count_repeats
second p s ss n e h = rw (ne-is_empty s n) (rw ((bytes_eq_iff s p).1 e) h)

passes :
    (p s : Bytes) (ss : List Bytes)
    → count_repeats 1 s ss ≡ true
    → count_repeats 1 p (s ∷ ss) ≡ true
unfolding count_repeats
passes p s ss h = ground (arith, count_repeats_mono s ss)

count_repeats_complete :
    (p : Bytes) (ss : List Bytes) → HasTriple (p ∷ ss) → count_repeats 1 p ss ≡ true
count_repeats_complete p [] h = absurd h
count_repeats_complete p (s ∷ []) h = absurd h
count_repeats_complete p (s ∷ t ∷ ss) (inl (n, sp, tp)) =
    let n' = subst (λ q. q ≢ []) (sym sp) n in
    second p s (t ∷ ss) n' sp (third s t ss (subst (λ q. q ≢ []) (sym tp) n) (tp ∙ sym sp))
count_repeats_complete p (s ∷ t ∷ ss) (inr h) =
    passes p s (t ∷ ss) (count_repeats_complete s (t ∷ ss) h)

repeats_iff : (ss : List Bytes) → (repeats ss ≡ true) ↔ HasTriple ss
unfolding repeats
repeats_iff [] = (λ h. cc, λ h. absurd h)
repeats_iff (s ∷ ss) = ((count_repeats_sound s ss).0, count_repeats_complete s ss)

-- The detector says yes exactly when the parsed path has such three segments.
pub has_repeated_path_segments_iff :
    (parse : Parser) (raw : Bytes) (u : Url)
    → parse raw ≡ some u
    → (has_repeated_path_segments parse raw ≡ true) ↔ HasTriple (split b'/' u.path)
unfolding has_repeated_path_segments
has_repeated_path_segments_iff parse raw u h =
    rw (h, has_repeated_path_segments) (repeats_iff (split b'/' u.path))
