-- ===== src/UrlUtil/Percent/Idempotent.antt =====
-- Normalising twice: the same as once without decoding, and with decoding on well-formed texts; not
-- so on every text.
use seo_crawler_mcp.Prelude.{
  ℕ, ◌/◌, ◌%◌, ◌<◌, Bool, true, ◌&&◌, none, some, List, [], ◌∷◌, map, ◌≡◌, ◌≢◌, ◌∙◌, refl, sym,
  Bytes, get_or, ap, arith, Bool-cases, inl, inr, All, every_below, every_below_at, is_some_of,
  is_some_of_eq,
}
use seo_crawler_mcp.UrlUtil.Percent.{
  is_unreserved, hex_digits, hex_val, decode_pair, encode_byte, normalize_percent_encoding,
}
use seo_crawler_mcp.UrlUtil.Percent.Tokens.{
  Token, lit, enc, Spells, done, plain, triplet, print, reduce, normalize_Spells,
}

percent_digit : hex_val b'%' ≡ none
unfolding hex_val
percent_digit = refl

pub decode_pair_percent_left : (l : ℕ) → decode_pair b'%' l ≡ none
unfolding decode_pair
decode_pair_percent_left l = ground (arith, percent_digit)

pub decode_pair_percent_right : (h : ℕ) → decode_pair h b'%' ≡ none
unfolding decode_pair
decode_pair_percent_right h = ground (arith, percent_digit)

hex_val-lt : (c : ℕ) (v : ℕ) → hex_val c ≡ some v → v < 16
unfolding hex_val
hex_val-lt c v h = ground arith

pub decode_pair-lt : (h l b : ℕ) → decode_pair h l ≡ some b → b < 256
unfolding decode_pair
decode_pair-lt h l b e = grind (arith, hex_val-lt)

digit_table : every_below (λ n. is_some_of (hex_val (get_or hex_digits n 0)) n) 16 ≡ true
unfolding every_below hex_val
digit_table = refl

digit_reads : (n : ℕ) → n < 16 → hex_val (get_or hex_digits n 0) ≡ some n
digit_reads n h = is_some_of_eq _ n (every_below_at _ 16 digit_table n h)

-- A byte's canonical triplet reads as that byte.
pub encode_byte_reads :
    (b : ℕ)
    → b < 256
    → decode_pair (get_or hex_digits (b / 16) 0) (get_or hex_digits (b % 16) 0) ≡ some b
unfolding decode_pair
encode_byte_reads b h = ground (arith, digit_reads (b / 16), digit_reads (b % 16))

pub unreserved-ne-percent : (b : ℕ) → is_unreserved b ≡ true → b ≢ b'%'
unfolding is_unreserved
unreserved-ne-percent b h = ground arith

-- What is spelled has only bytes, and its canonical spelling spells it.
abbrev IsSpelled : Token → Type 0
IsSpelled (lit c) = c ≢ b'%'
IsSpelled (enc b) = b < 256

Spells-IsSpelled : {s : Bytes} {ts : List Token} → Spells s ts → All IsSpelled ts
Spells-IsSpelled done = tt
Spells-IsSpelled (plain n r) = (n, Spells-IsSpelled r)
Spells-IsSpelled (triplet {h} {l} {b} e r) = (decode_pair-lt h l b e, Spells-IsSpelled r)

print-Spells : (ts : List Token) → All IsSpelled ts → Spells (print ts) ts
unfolding print encode_byte
print-Spells [] h = done
print-Spells (lit c ∷ ts) h = plain h.0 (print-Spells ts h.1)
print-Spells (enc b ∷ ts) h = triplet (encode_byte_reads b h.0) (print-Spells ts h.1)

reduce-IsSpelled : (d : Bool) (t : Token) → IsSpelled t → IsSpelled (reduce d t)
unfolding reduce
reduce-IsSpelled d (lit c) h = h
reduce-IsSpelled d (enc b) h = elim (Bool-cases (d && is_unreserved b)) [
  | inl e ↦ rw e (unreserved-ne-percent b (ground arith))
  | inr e ↦ rw e h
]

reduce-All-IsSpelled :
    (d : Bool) (ts : List Token) → All IsSpelled ts → All IsSpelled (map (reduce d) ts)
reduce-All-IsSpelled d [] h = tt
reduce-All-IsSpelled d (t ∷ ts) h = (reduce-IsSpelled d t h.0, reduce-All-IsSpelled d ts h.1)

reduce_idem : (d : Bool) (t : Token) → reduce d (reduce d t) ≡ reduce d t
unfolding reduce
reduce_idem d (lit c) = refl
reduce_idem d (enc b) = elim (Bool-cases (d && is_unreserved b)) [
  | inl e ↦ rw e
  | inr e ↦ rw e (rw e)
]

reduce_all_idem :
    (d : Bool) (ts : List Token) → map (reduce d) (map (reduce d) ts) ≡ map (reduce d) ts
reduce_all_idem d [] = refl
reduce_all_idem d (t ∷ ts) = rw (reduce_idem d t, reduce_all_idem d ts)

-- The normal form of a well-formed text is well-formed and spells the reduced tokens.
pub normalize_output-Spells :
    (d : Bool) {s : Bytes} {ts : List Token}
    → Spells s ts
    → Spells (normalize_percent_encoding d s) (map (reduce d) ts)
normalize_output-Spells d {ts = ts} r =
    rw (normalize_Spells d r) (print-Spells _ (reduce-All-IsSpelled d ts (Spells-IsSpelled r)))

-- On a text in which every percent sign begins a triplet, normalising twice is normalising once,
-- with decoding or without.
pub normalize_idem_of_Spells :
    (d : Bool) {s : Bytes} {ts : List Token}
    → Spells s ts
    → normalize_percent_encoding d (normalize_percent_encoding d s) ≡ normalize_percent_encoding d s
normalize_idem_of_Spells d {s} {ts} r =
    normalize_Spells d (normalize_output-Spells d r)
    ∙ ap print (reduce_all_idem d ts)
    ∙ sym (normalize_Spells d r)
