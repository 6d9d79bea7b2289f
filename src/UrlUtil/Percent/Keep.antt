-- ===== src/UrlUtil/Percent/Keep.antt =====
-- Normalising with no decoding, on every text; and decoding on texts that are not well-formed.
use seo_crawler_mcp.Prelude.{
  ℕ, ◌/◌, ◌%◌, ◌<◌, Bool, true, false, none, some, [], ◌∷◌, ◌++◌, ◌≡◌, ◌≢◌, ◌∙◌, refl, sym, Bytes,
  ◌==◌, get_or, ap, arith, Bool-cases, inl, inr, Option-cases,
}
use seo_crawler_mcp.UrlUtil.Percent.{
  is_unreserved, hex_digits, decode_pair, encode_byte, write_triplet, normalize_percent_encoding,
}
use seo_crawler_mcp.UrlUtil.Percent.Tokens.{normalize_plain, normalize_triplet}
use seo_crawler_mcp.UrlUtil.Percent.Idempotent.{
  decode_pair_percent_left, encode_byte_reads, decode_pair-lt,
}

-- Whether the text goes on with two hexadecimal digits.
starts_pair : Bytes → Bool
starts_pair [] = false
starts_pair (h ∷ []) = false
starts_pair (h ∷ l ∷ s) = elim (decode_pair h l) [ none ↦ false | some _ ↦ true ]

normalize_percent_kept :
    (d : Bool) (s : Bytes)
    → starts_pair s ≡ false
    → normalize_percent_encoding d (b'%' ∷ s) ≡ b'%' ∷ normalize_percent_encoding d s
unfolding starts_pair normalize_percent_encoding
normalize_percent_kept d [] n = refl
normalize_percent_kept d (h ∷ []) n = refl
normalize_percent_kept d (h ∷ l ∷ s) n = ground arith

-- Without decoding the first byte stays.
normalize_head :
    (c : ℕ) (s : Bytes) → (r : Bytes) × (normalize_percent_encoding false (c ∷ s) ≡ c ∷ r)
unfolding normalize_percent_encoding write_triplet encode_byte
normalize_head c [] = ([], refl)
normalize_head c (h ∷ []) = (h ∷ [], refl)
normalize_head c (h ∷ l ∷ s) = elim (Bool-cases (c == b'%')) [
  | inr e ↦ (normalize_percent_encoding false (h ∷ l ∷ s), ground arith)
  | inl e ↦ elim (Option-cases (decode_pair h l)) [
    | inl f ↦ (normalize_percent_encoding false (h ∷ l ∷ s), ground arith)
    | inr (b, f) ↦ (
      get_or hex_digits (b / 16) 0
          ∷ get_or hex_digits (b % 16) 0
          ∷ normalize_percent_encoding false s,
      ground arith,
    )
  ]
]

starts_pair-percent : (c : ℕ) (s : Bytes) → c ≡ b'%' → starts_pair (c ∷ s) ≡ false
unfolding starts_pair
starts_pair-percent c [] e = refl
starts_pair-percent c (l ∷ s) e = ground (arith, decode_pair_percent_left l)

starts_pair_second : (h l : ℕ) (s r : Bytes) → starts_pair (h ∷ l ∷ s) ≡ starts_pair (h ∷ l ∷ r)
unfolding starts_pair
starts_pair_second h l s r = refl

starts_pair-normalize :
    (s : Bytes) → starts_pair (normalize_percent_encoding false s) ≡ starts_pair s
starts_pair-normalize [] = unfold normalize_percent_encoding in refl
starts_pair-normalize (h ∷ []) = unfold normalize_percent_encoding in refl
starts_pair-normalize (h ∷ l ∷ s) = elim (Bool-cases (h == b'%')) [
  | inl e ↦
      let (r, f) = normalize_head h (l ∷ s) in
      let p : h ≡ b'%' = ground arith in
      rw f (starts_pair-percent h r p ∙ sym (starts_pair-percent h (l ∷ s) p))
  | inr e ↦
      let (r, f) = normalize_head l s in
      rw (normalize_plain false h (l ∷ s) (ground arith)) (rw f (starts_pair_second h l r s))
]

starts_pair-none : (h l : ℕ) (s : Bytes) → decode_pair h l ≡ none → starts_pair (h ∷ l ∷ s) ≡ false
unfolding starts_pair
starts_pair-none h l s e = ground arith

normalize_encoded :
    (b : ℕ) (s : Bytes)
    → b < 256
    → normalize_percent_encoding false (encode_byte b ++ s)
      ≡ encode_byte b ++ normalize_percent_encoding false s
unfolding encode_byte write_triplet
normalize_encoded b s h = normalize_triplet false _ _ b s (encode_byte_reads b h)

write_triplet_keep : (b : ℕ) → write_triplet false b ≡ encode_byte b
unfolding write_triplet
write_triplet_keep b = refl

-- One step of the second pass, for each way in which the first pass went on.
module _ (c : ℕ) (s : Bytes) where
  again_plain :
      c ≢ b'%'
      → normalize_percent_encoding false (normalize_percent_encoding false s)
        ≡ normalize_percent_encoding false s
      → normalize_percent_encoding false (normalize_percent_encoding false (c ∷ s))
        ≡ normalize_percent_encoding false (c ∷ s)
  again_plain n ih =
      rw (normalize_plain false c s n) (rw (normalize_plain false c _ n) (ap (◌∷◌ c) ih))

  again_kept :
      c ≡ b'%'
      → starts_pair s ≡ false
      → normalize_percent_encoding false (normalize_percent_encoding false s)
        ≡ normalize_percent_encoding false s
      → normalize_percent_encoding false (normalize_percent_encoding false (c ∷ s))
        ≡ normalize_percent_encoding false (c ∷ s)
  again_kept p n ih = rw p (
      rw (normalize_percent_kept false s n)
        (normalize_percent_kept false _ (starts_pair-normalize s ∙ n) ∙ ap (◌∷◌ b'%') ih))

again_triplet :
    (c h l b : ℕ) (s : Bytes)
    → c ≡ b'%'
    → decode_pair h l ≡ some b
    → normalize_percent_encoding false (normalize_percent_encoding false s)
      ≡ normalize_percent_encoding false s
    → normalize_percent_encoding false (normalize_percent_encoding false (c ∷ h ∷ l ∷ s))
      ≡ normalize_percent_encoding false (c ∷ h ∷ l ∷ s)
again_triplet c h l b s p e ih = rw p (
    rw (normalize_triplet false h l b s e) (
      rw (write_triplet_keep b)
        (normalize_encoded b _ (decode_pair-lt h l b e) ∙ ap (◌++◌ (encode_byte b)) ih)))

-- Without decoding, normalising twice is normalising once, on every text.
pub normalize_idem_keep :
    (s : Bytes)
    → normalize_percent_encoding false (normalize_percent_encoding false s)
      ≡ normalize_percent_encoding false s
normalize_idem_keep [] = unfold normalize_percent_encoding in refl
normalize_idem_keep (c ∷ []) = unfold normalize_percent_encoding in refl
normalize_idem_keep (c ∷ h ∷ []) = unfold normalize_percent_encoding in refl
normalize_idem_keep (c ∷ h ∷ l ∷ s) =
    let ih = normalize_idem_keep (h ∷ l ∷ s) in
    let ih' = normalize_idem_keep s in
    elim (Bool-cases (c == b'%')) [
      | inr e ↦ again_plain c (h ∷ l ∷ s) (ground arith) ih
      | inl e ↦ elim (Option-cases (decode_pair h l)) [
        | inl f ↦ again_kept c (h ∷ l ∷ s) (ground arith) (starts_pair-none h l s f) ih
        | inr (b, f) ↦ again_triplet c h l b s (ground arith) f ih'
      ]
    ]

-- With decoding it is not: a stray percent sign, a triplet of an unreserved byte `b`, and a byte `x`
-- that makes with `b` the digits of an unreserved byte `u` give the percent sign, `b` and `x`, and
-- those give `u`.
pub normalize_not_idem :
    (h l b x u : ℕ)
    → decode_pair h l ≡ some b
    → is_unreserved b ≡ true
    → decode_pair b x ≡ some u
    → is_unreserved u ≡ true
    → x ≢ b'%'
    → (normalize_percent_encoding true (b'%' ∷ b'%' ∷ h ∷ l ∷ x ∷ []) ≡ b'%' ∷ b ∷ x ∷ [])
      × (normalize_percent_encoding true (b'%' ∷ b ∷ x ∷ []) ≡ u ∷ [])
unfolding normalize_percent_encoding write_triplet
normalize_not_idem h l b x u e r f q n = (ground (arith, decode_pair_percent_left h), ground arith)
