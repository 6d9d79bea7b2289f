-- ===== src/Issues/Texts/Hreflang/Codes.antt =====
-- Which codes isValidHreflangCode accepts.
use seo_crawler_mcp.Prelude.{
  ℕ, suc, zero, All, ◌≤◌, ◌<◌, true, ◌&&◌, none, some, [], ◌∷◌, ◌++◌, Bytes, length, bytes_mem,
  to_lower, index_byte, take, drop, take-append, Option-cases, ◌≡◌, ◌≢◌, ◌↔◌, ◌⊎◌, inl, inr, refl,
  ap, arith,
}
use seo_crawler_mcp.Prelude.Split.{HasNoByte}
use seo_crawler_mcp.Issues.Texts.Hreflang.{
  iso_639_1, to_upper_byte, to_upper, split_code, is_region, is_valid_hreflang_code,
}

index_byte-none : (s : Bytes) (c : ℕ) → index_byte s c ≡ none → HasNoByte c s
unfolding index_byte
index_byte-none [] c h = tt
index_byte-none (x ∷ s) c h = elim (Option-cases (index_byte s c)) [
  | inl later ↦ (ground (arith, h, later), index_byte-none s c later)
  | inr (i, later) ↦ ground (arith, h, later)
]

index_byte_absent : (s : Bytes) (c : ℕ) → HasNoByte c s → index_byte s c ≡ none
unfolding index_byte
index_byte_absent [] c h = refl
index_byte_absent (x ∷ s) c (differs, later) = ground (arith, differs, index_byte_absent s c later)

later_of :
    (x : ℕ) (s : Bytes) (c i : ℕ)
    → index_byte (x ∷ s) c ≡ some (suc i)
    → (x ≢ c) × (index_byte s c ≡ some i)
unfolding index_byte
later_of x s c i h = elim (Option-cases (index_byte s c)) [
  | inl nowhere ↦ ground (arith, h, nowhere)
  | inr (k, later) ↦ ground (arith, h, later)
]

index_byte-some :
    (s : Bytes) (c i : ℕ)
    → index_byte s c ≡ some i
    → (s ≡ take i s ++ c ∷ drop (suc i) s) × HasNoByte c (take i s)
unfolding index_byte
index_byte-some [] c i h = absurd (cc h)
index_byte-some (x ∷ s) c zero h =
    let is_here : x ≡ c = ground (arith, h, Option-cases (index_byte s c)) in (rw is_here refl, tt)
index_byte-some (x ∷ s) c (suc i) h =
    let (differs, later) : (x ≢ c) × (index_byte s c ≡ some i) = later_of x s c i h in
    let (splits, before) = index_byte-some s c i later in (ap (◌∷◌ x) splits, (differs, before))

index_byte-append :
    (s rest : Bytes) (c : ℕ) → HasNoByte c s → index_byte (s ++ c ∷ rest) c ≡ some (length s)
unfolding index_byte
index_byte-append [] rest c h = ground arith
index_byte-append (x ∷ s) rest c (differs, later) =
    ground (arith, differs, index_byte-append s rest c later)

abbrev pub IsLanguage : Bytes → Type 0
IsLanguage lang = bytes_mem (to_lower lang) iso_639_1 ≡ true

abbrev pub IsLetter : ℕ → Type 0
IsLetter c = ((b'A' ≤ c) × (c ≤ b'Z')) ⊎ ((b'a' ≤ c) × (c ≤ b'z'))

-- Two letters.
abbrev pub IsRegion : Bytes → Type 0
IsRegion [] = ⊥
IsRegion (x ∷ []) = ⊥
IsRegion (x ∷ y ∷ []) = IsLetter x × IsLetter y
IsRegion (x ∷ y ∷ z ∷ r) = ⊥

is_region_iff : (r : Bytes) → (is_region (to_upper r) ≡ true) ↔ IsRegion r
unfolding is_region to_upper to_upper_byte
is_region_iff [] = ground arith
is_region_iff (x ∷ []) = ground arith
is_region_iff (x ∷ y ∷ []) = ground arith
is_region_iff (x ∷ y ∷ z ∷ r) = ground arith

-- A language of the table alone, or before a dash and two letters.
abbrev pub IsCode : Bytes → Type 0
IsCode code =
    (IsLanguage code × HasNoByte b'-' code)
    ⊎ ((lang : Bytes) × ((region : Bytes) × (code ≡ lang ++ b'-' ∷ region)
          × HasNoByte b'-' lang
          × IsLanguage lang
          × IsRegion region))

valid_plain :
    (code : Bytes)
    → index_byte code b'-' ≡ none
    → is_valid_hreflang_code code ≡ bytes_mem (to_lower code) iso_639_1
unfolding is_valid_hreflang_code split_code
valid_plain code plain = ground (arith, plain)

valid_parts :
    (code : Bytes) (i : ℕ)
    → index_byte code b'-' ≡ some i
    → is_valid_hreflang_code code
      ≡ (bytes_mem (to_lower (take i code)) iso_639_1 && is_region (to_upper (drop (suc i) code)))
unfolding is_valid_hreflang_code split_code
valid_parts code i dashed = ground (arith, dashed)

drop_past : (s rest : Bytes) (c : ℕ) → drop (suc (length s)) (s ++ c ∷ rest) ≡ rest
drop_past [] rest c = refl
drop_past (x ∷ s) rest c = drop_past s rest c

region_accepted :
    (lang region : Bytes)
    → HasNoByte b'-' lang
    → IsLanguage lang
    → IsRegion region
    → is_valid_hreflang_code (lang ++ b'-' ∷ region) ≡ true
region_accepted lang region before language two =
    let parts =
      valid_parts (lang ++ b'-' ∷ region) (length lang)
        (index_byte-append lang region b'-' before) in
    let known = (is_region_iff region).1 two in
    ground
      (arith, parts, take-append lang (b'-' ∷ region), drop_past lang region b'-', language, known)

-- Of the texts of ASCII characters isValidHreflangCode accepts exactly a language of the ISO 639-1 table
-- in any case, alone or followed by one dash and a region of two letters.
pub is_valid_hreflang_code_iff :
    (code : Bytes) → All (λ c. c < 128) code → (is_valid_hreflang_code code ≡ true) ↔ IsCode code
is_valid_hreflang_code_iff code ascii = elim (Option-cases (index_byte code b'-')) [
  | inl plain ↦
      let before = index_byte-none code b'-' plain in
      (
        λ h. inl (ground (arith, valid_plain code plain, h), before),
        λ c. elim c [
          | inl (language, _) ↦ ground (arith, valid_plain code plain, language)
          | inr (lang, (region, e, before_dash, language, two)) ↦
              let dashed = index_byte-append lang region b'-' before_dash in
              absurd (cc (e, dashed, plain))
        ],
      )
  | inr (i, dashed) ↦
      let (splits, before) = index_byte-some code b'-' i dashed in
      let parts = valid_parts code i dashed in
      let region = is_region_iff (drop (suc i) code) in
      (
        λ h. inr (
          take i code,
          (
            drop (suc i) code,
            splits,
            before,
            ground (arith, parts, h),
            region.0 (ground (arith, parts, h)),
          ),
        ),
        λ c. elim c [
          | inl (_, no_dash) ↦
              let absent = index_byte_absent code b'-' no_dash in absurd (cc (absent, dashed))
          | inr (lang, (rest, e, before_dash, language, two)) ↦
              rw e (region_accepted lang rest before_dash language two)
        ],
      )
]
