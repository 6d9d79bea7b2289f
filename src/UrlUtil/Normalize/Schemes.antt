-- ===== src/UrlUtil/Normalize/Schemes.antt =====
-- The schemes that are dropped before parsing, in any letter case and with control characters
-- written in.
use seo_crawler_mcp.Prelude.{
  ℕ, zero, suc, ◌<◌, ◌≤◌, Bool, true, false, not, none, some, List, [], ◌∷◌, ◌++◌, Bytes, ltb,
  length, take, keep, any, bytes_eq, bytes_mem, has_prefix, index_byte, to_lower, to_lower_byte,
  ◌≡◌, refl, ap, sym, subst, ◌∙◌, arith, All, Bool-cases, inl, inr, bytes_eq_iff,
}
use seo_crawler_mcp.Prelude.Result.{err}
use seo_crawler_mcp.UrlUtil.Normalize.{
  Parser, is_control, sanitize_control_chars, dropped_schemes, scheme_window, is_dropped_scheme,
  dropped_prefix, unsupported_scheme, normalize,
}

module _ (p : ℕ → Bool) where
  any-keep-not : (s : Bytes) → any p (keep (λ c. not (p c)) s) ≡ false
  any-keep-not [] = refl
  any-keep-not (c ∷ s) = ground (arith, any-keep-not s)

  any-take : (n : ℕ) (s : Bytes) → any p s ≡ false → any p (take n s) ≡ false
  any-take zero s h = refl
  any-take (suc n) [] h = refl
  any-take (suc n) (c ∷ s) h = ground (arith, any-take n s)

take_all : (n : ℕ) (s : Bytes) → length s ≤ n → take n s ≡ s
take_all zero [] h = refl
take_all zero (c ∷ s) h = absurd (omega arith)
take_all (suc n) [] h = refl
take_all (suc n) (c ∷ s) h = ap (◌∷◌ c) (take_all n s (omega arith))

-- No control character is left.
pub sanitize-clean : (s : Bytes) → any is_control (sanitize_control_chars s) ≡ false
unfolding sanitize_control_chars
sanitize-clean s = elim (Bool-cases (any is_control s)) [
  | inl e ↦ rw e (any-keep-not is_control s)
  | inr e ↦ rw e e
]

sanitize_of_clean : (s : Bytes) → any is_control s ≡ false → sanitize_control_chars s ≡ s
unfolding sanitize_control_chars
sanitize_of_clean s h = rw h

lower_prefix :
    (n : ℕ) (s rest : Bytes)
    → length s < n
    → has_prefix (to_lower (take n (s ++ b':' ∷ rest))) (to_lower s ++ b':' ∷ []) ≡ true
unfolding has_prefix to_lower to_lower_byte
lower_prefix zero s rest h = absurd (omega arith)
lower_prefix (suc n) [] rest h = refl
lower_prefix (suc n) (c ∷ s) rest h = ground (arith, lower_prefix n s rest)

any-of_mem :
    (lower t : Bytes) (ss : List Bytes)
    → bytes_mem t ss ≡ true
    → has_prefix lower (t ++ b':' ∷ []) ≡ true
    → any (λ scheme. has_prefix lower (scheme ++ b':' ∷ [])) ss ≡ true
unfolding bytes_mem
any-of_mem lower t [] m h = cc
any-of_mem lower t (u ∷ ss) m h = elim (Bool-cases (bytes_eq t u)) [
  | inl e ↦ rw (← (bytes_eq_iff t u).0 e) (rw h)
  | inr e ↦ ground (arith, any-of_mem lower t ss)
]

index_byte-to_lower : (s : Bytes) → index_byte (to_lower s) b':' ≡ index_byte s b':'
unfolding index_byte to_lower to_lower_byte
index_byte-to_lower [] = refl
index_byte-to_lower (c ∷ s) = ground (arith, index_byte-to_lower s)

length-to_lower : (s : Bytes) → length (to_lower s) ≡ length s
unfolding to_lower
length-to_lower [] = refl
length-to_lower (c ∷ s) = ap suc (length-to_lower s)

index_byte-append :
    (s rest : Bytes) (c : ℕ)
    → index_byte s c ≡ none
    → index_byte (s ++ c ∷ rest) c ≡ some (length s)
unfolding index_byte
index_byte-append [] rest c h = ground arith
index_byte-append (x ∷ s) rest c h = ground (arith, index_byte-append s rest c)

take-append : (s rest : Bytes) → take (length s) (s ++ rest) ≡ s
take-append [] rest = refl
take-append (c ∷ s) rest = ap (◌∷◌ c) (take-append s rest)

-- What every dropped scheme is: short, not empty, and without a colon.
abbrev IsShort : Bytes → Type 0
IsShort s = (0 < length s) × (length s < 12) × (index_byte s b':' ≡ none)

IsShort-of_mem : (t : Bytes) (ss : List Bytes) → All IsShort ss → bytes_mem t ss ≡ true → IsShort t
unfolding bytes_mem
IsShort-of_mem t [] a m = cc
IsShort-of_mem t (u ∷ ss) a m = elim (Bool-cases (bytes_eq t u)) [
  | inl e ↦ rw ((bytes_eq_iff t u).0 e) a.0
  | inr e ↦ IsShort-of_mem t ss a.1 (ground arith)
]

dropped_schemes-IsShort : All IsShort dropped_schemes
unfolding dropped_schemes index_byte
dropped_schemes-IsShort = ground arith

scheme_window_lem : (s : Bytes) → scheme_window s ≡ take 12 s
unfolding scheme_window
scheme_window_lem s = elim (Bool-cases (ltb 12 (length s))) [
  | inl e ↦ rw e
  | inr e ↦ rw e (sym (take_all 12 s (ground arith)))
]

is_dropped_of_mem :
    (s rest : Bytes)
    → any is_control (s ++ b':' ∷ rest) ≡ false
    → bytes_mem (to_lower s) dropped_schemes ≡ true
    → length s < 12
    → is_dropped_scheme (s ++ b':' ∷ rest) ≡ true
unfolding is_dropped_scheme
is_dropped_of_mem s rest clean m short = rw (scheme_window_lem (s ++ b':' ∷ rest)) (
    rw (sanitize_of_clean (take 12 (s ++ b':' ∷ rest)) (any-take is_control 12 _ clean))
      (any-of_mem _ (to_lower s) dropped_schemes m (lower_prefix 12 s rest short)))

dropped_prefix_of_mem :
    (s rest : Bytes)
    → any is_control (s ++ b':' ∷ rest) ≡ false
    → bytes_mem (to_lower s) dropped_schemes ≡ true
    → dropped_prefix (s ++ b':' ∷ rest) ≡ some (to_lower s)
unfolding dropped_prefix
dropped_prefix_of_mem [] rest clean m = absurd (
    omega (
      arith,
      IsShort-of_mem (to_lower []) dropped_schemes dropped_schemes-IsShort m,
      length-to_lower [],
    ))
dropped_prefix_of_mem (c ∷ s) rest clean m =
    let (pos, short, none_at) = IsShort-of_mem _ dropped_schemes dropped_schemes-IsShort m in
    let at = index_byte-append (c ∷ s) rest b':' (sym (index_byte-to_lower (c ∷ s)) ∙ none_at) in
    rw (is_dropped_of_mem (c ∷ s) rest clean m (omega (arith, length-to_lower (c ∷ s))))
      (rw at (ap (λ t. some (to_lower (c ∷ t))) (take-append s (b':' ∷ rest))))

-- A text that begins, once its control characters are removed, with a dropped scheme in any letter
-- case and a colon is refused with that scheme in lower case, whatever the parser would say.
pub normalize-dropped :
    (parse : Parser) (raw s rest : Bytes)
    → sanitize_control_chars raw ≡ s ++ b':' ∷ rest
    → bytes_mem (to_lower s) dropped_schemes ≡ true
    → normalize parse raw ≡ err (unsupported_scheme (to_lower s))
unfolding normalize
normalize-dropped parse raw s rest e m =
    let clean = subst (λ t. any is_control t ≡ false) e (sanitize-clean raw) in
    let p = dropped_prefix_of_mem s rest clean m in rw (e, normalize) (rw (p, normalize))
