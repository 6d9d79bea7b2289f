-- ===== src/UrlUtil/Percent/Tokens.antt =====
-- What a percent-encoded text spells: literal bytes and encoded bytes. The normaliser is a function
-- of what the text spells.
use seo_crawler_mcp.Prelude.{
  ℕ, Bool, ◌&&◌, some, List, [], ◌∷◌, ◌++◌, map, ◌≡◌, ◌≢◌, ◌∙◌, refl, Bytes, if◌then◌else◌, ap,
  arith, Bool-cases, inl, inr,
}
use seo_crawler_mcp.UrlUtil.Percent.{
  is_unreserved, decode_pair, encode_byte, write_triplet, normalize_percent_encoding,
}

pub data Token : Type 0 where
  lit : ℕ → Token
  enc : ℕ → Token

-- `Spells s ts`: every percent sign of `s` begins a triplet, and `s` reads as the tokens `ts`.
pub data Spells : Bytes → List Token → Type 0 where
  done : Spells [] []
  plain :
      {c : ℕ} {s : Bytes} {ts : List Token} → c ≢ b'%' → Spells s ts → Spells (c ∷ s) (lit c ∷ ts)
  triplet :
      {h l b : ℕ} {s : Bytes} {ts : List Token}
      → decode_pair h l ≡ some b
      → Spells s ts
      → Spells (b'%' ∷ h ∷ l ∷ s) (enc b ∷ ts)

-- The canonical spelling, with upper-case digits.
unfoldable pub print : List Token → Bytes
unfolding encode_byte
print [] = []
print (lit c ∷ ts) = c ∷ print ts
print (enc b ∷ ts) = encode_byte b ++ print ts

-- RFC 3986 section 6.2.2.2: an encoded unreserved byte is the byte itself.
unfoldable pub reduce : Bool → Token → Token
unfolding is_unreserved
reduce d (lit c) = lit c
reduce d (enc b) = if d && is_unreserved b then lit b else enc b

pub normalize_plain :
    (d : Bool) (c : ℕ) (s : Bytes)
    → c ≢ b'%'
    → normalize_percent_encoding d (c ∷ s) ≡ c ∷ normalize_percent_encoding d s
unfolding normalize_percent_encoding
normalize_plain d c [] n = refl
normalize_plain d c (h ∷ []) n = refl
normalize_plain d c (h ∷ l ∷ s) n = ground arith

pub normalize_triplet :
    (d : Bool) (h l b : ℕ) (s : Bytes)
    → decode_pair h l ≡ some b
    → normalize_percent_encoding d (b'%' ∷ h ∷ l ∷ s)
      ≡ write_triplet d b ++ normalize_percent_encoding d s
unfolding normalize_percent_encoding
normalize_triplet d h l b s e = ground arith

print-reduce :
    (d : Bool) (b : ℕ) (ts : List Token)
    → write_triplet d b ++ print ts ≡ print (reduce d (enc b) ∷ ts)
unfolding print reduce write_triplet
print-reduce d b ts = elim (Bool-cases (d && is_unreserved b)) [
  | inl e ↦ rw (e, write_triplet, reduce)
  | inr e ↦ rw (e, write_triplet, reduce)
]

print_lit : (c : ℕ) (ts : List Token) → c ∷ print ts ≡ print (lit c ∷ ts)
unfolding print
print_lit c ts = refl

-- The normal form of a text that spells some tokens is the canonical spelling of the tokens, those
-- that need no encoding decoded where `d` asks for it.
pub normalize_Spells :
    (d : Bool) {s : Bytes} {ts : List Token}
    → Spells s ts
    → normalize_percent_encoding d s ≡ print (map (reduce d) ts)
unfolding reduce
normalize_Spells d done = unfold normalize_percent_encoding print in refl
normalize_Spells d (plain {c} {s} {ts} n r) =
    normalize_plain d c s n ∙ ap (◌∷◌ c) (normalize_Spells d r) ∙ print_lit c (map (reduce d) ts)
normalize_Spells d (triplet {h} {l} {b} {s} {ts} e r) =
    normalize_triplet d h l b s e
    ∙ ap (◌++◌ (write_triplet d b)) (normalize_Spells d r)
    ∙ print-reduce d b (map (reduce d) ts)
