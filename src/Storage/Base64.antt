-- ===== src/Storage/Base64.antt =====
-- encoding/base64's StdEncoding, as the cursors of internal/storage/queries.go use it: with padding;
-- the decoder skips new lines and does not look at the bits that are left over.
use seo_crawler_mcp.Prelude.{
  ℕ, ◌+◌, ◌*◌, ◌/◌, ◌%◌, ◌<◌, Bool, true, false, not, ◌&&◌, ◌||◌, Option, none, some, [], ◌∷◌,
  Bytes, codes, get_or, index_byte, if◌then◌else◌, ◌==◌, keep, length, is_empty, All, every_below,
  every_below_at, is_some_of, is_some_of_eq, ◌≡◌, refl, sym, ap, ◌∙◌, arith,
}
use seo_crawler_mcp.Prelude.Options.{◌>>=◌}

abbrev alphabet : Bytes
alphabet = codes "ABCDEFGHIJKLMNOPQRSTUVWXYZabcdefghijklmnopqrstuvwxyz0123456789+/"

unfoldable pub letter : ℕ → ℕ
letter v = get_or alphabet (v % 64) 0

unfoldable pub value : ℕ → Option ℕ
value c = index_byte alphabet c

unfoldable pub encode_to_string : Bytes → Bytes
encode_to_string [] = []
encode_to_string (a ∷ []) = letter (a / 4) ∷ letter (a * 16) ∷ b'=' ∷ b'=' ∷ []
encode_to_string (a ∷ b ∷ []) =
    letter (a / 4) ∷ letter (a * 16 + b / 16) ∷ letter (b * 4) ∷ b'=' ∷ []
encode_to_string (a ∷ b ∷ c ∷ rest) =
    letter (a / 4)
    ∷ letter (a * 16 + b / 16)
    ∷ letter (b * 4 + c / 64)
    ∷ letter c
    ∷ encode_to_string rest

unfoldable pub is_new_line : ℕ → Bool
is_new_line c = (c == 10) || (c == 13)

-- The bytes of two, three or four values, the last byte of each not being whole.
unfoldable pub first_byte : ℕ → ℕ → ℕ
first_byte w x = w * 4 + x / 16

unfoldable pub second_byte : ℕ → ℕ → ℕ
second_byte x y = (x % 16) * 16 + y / 4

unfoldable pub third_byte : ℕ → ℕ → ℕ
third_byte y z = (y % 4) * 64 + z

-- Nothing comes after padding.
unfoldable pub ended : Bytes → Bytes → Option Bytes
ended [] bytes = some bytes
ended (c ∷ cs) bytes = none

-- Four characters, what comes after them and what that decodes to.
unfoldable pub decode_group : ℕ → ℕ → ℕ → ℕ → Bytes → Option Bytes → Option Bytes
decode_group w x y z rest more = value w >>= λ a. value x >>= λ b.
    if y == b'='
    then (if z == b'=' then ended rest (first_byte a b ∷ []) else none)
    else value y >>= λ c.
        if z == b'='
        then ended rest (first_byte a b ∷ second_byte b c ∷ [])
        else value z >>= λ d.
            more >>= λ bytes. some (first_byte a b ∷ second_byte b c ∷ third_byte c d ∷ bytes)

unfoldable pub decode_groups : Bytes → Option Bytes
decode_groups [] = some []
decode_groups (w ∷ []) = none
decode_groups (w ∷ x ∷ []) = none
decode_groups (w ∷ x ∷ y ∷ []) = none
decode_groups (w ∷ x ∷ y ∷ z ∷ rest) =
    let more = decode_groups rest in decode_group w x y z rest more

unfoldable pub decode_string : Bytes → Option Bytes
decode_string s = decode_groups (keep (λ c. not (is_new_line c)) s)

abbrev is_good : ℕ → Bool
is_good v =
    is_some_of (value (letter v)) v && not (letter v == b'=') && not (is_new_line (letter v))

letters_good : every_below is_good 64 ≡ true
unfolding every_below is_new_line letter value index_byte
letters_good = refl

letter-small : (v : ℕ) → letter (v % 64) ≡ letter v
unfolding letter
letter-small v = let same : v % 64 % 64 ≡ v % 64 = omega arith in ap (λ n. get_or alphabet n 0) same

letter_good : (v : ℕ) → is_good (v % 64) ≡ true
letter_good v = every_below_at is_good 64 letters_good (v % 64) (omega arith)

value-letter : (v : ℕ) → value (letter v) ≡ some (v % 64)
value-letter v =
    let good = letter_good v in
    ap value (sym (letter-small v))
    ∙ is_some_of_eq (value (letter (v % 64))) (v % 64) (ground (arith, good))

letter-padding : (v : ℕ) → (letter v == b'=') ≡ false
letter-padding v =
    let good = letter_good v in ap (λ c. c == b'=') (sym (letter-small v)) ∙ ground (arith, good)

letter-new_line : (v : ℕ) → is_new_line (letter v) ≡ false
letter-new_line v =
    let good = letter_good v in ap is_new_line (sym (letter-small v)) ∙ ground (arith, good)

first_byte-parts :
    (a b : ℕ) → a < 256 → b < 256 → first_byte (a / 4 % 64) ((a * 16 + b / 16) % 64) ≡ a
unfolding first_byte
first_byte-parts a b ha hb = omega (arith, ha, hb)

second_byte-parts :
    (a b c : ℕ)
    → b < 256
    → c < 256
    → second_byte ((a * 16 + b / 16) % 64) ((b * 4 + c / 64) % 64) ≡ b
unfolding second_byte
second_byte-parts a b c hb hc = omega (arith, hb, hc)

third_byte-parts : (b c : ℕ) → c < 256 → third_byte ((b * 4 + c / 64) % 64) (c % 64) ≡ c
unfolding third_byte
third_byte-parts b c hc = omega (arith, hc)

last_second : (a b : ℕ) → b < 256 → second_byte ((a * 16 + b / 16) % 64) (b * 4 % 64) ≡ b
unfolding second_byte
last_second a b hb = omega (arith, hb)

last_first : (a : ℕ) → a < 256 → first_byte (a / 4 % 64) (a * 16 % 64) ≡ a
unfolding first_byte
last_first a ha = omega (arith, ha)

-- A whole group of three bytes.
decode_group-three :
    (a b c : ℕ) (rest bytes : Bytes) (more : Option Bytes)
    → a < 256
    → b < 256
    → c < 256
    → more ≡ some bytes
    → decode_group
        (letter (a / 4))
        (letter (a * 16 + b / 16))
        (letter (b * 4 + c / 64))
        (letter c)
        rest
        more
      ≡ some (a ∷ b ∷ c ∷ bytes)
unfolding decode_group
decode_group-three a b c rest bytes more ha hb hc h =
    let w = value-letter (a / 4) in
    let x = value-letter (a * 16 + b / 16) in
    let y = value-letter (b * 4 + c / 64) in
    let z = value-letter c in
    let py = letter-padding (b * 4 + c / 64) in
    let pz = letter-padding c in
    let first = first_byte-parts a b ha hb in
    let second = second_byte-parts a b c hb hc in
    let third = third_byte-parts b c hc in
    ground (arith, w, x, y, z, py, pz, first, second, third, h)

decode_group-two :
    (a b : ℕ)
    → a < 256
    → b < 256
    → decode_group (letter (a / 4)) (letter (a * 16 + b / 16)) (letter (b * 4)) b'=' [] (some [])
      ≡ some (a ∷ b ∷ [])
unfolding decode_group ended
decode_group-two a b ha hb =
    let w = value-letter (a / 4) in
    let x = value-letter (a * 16 + b / 16) in
    let y = value-letter (b * 4) in
    let py = letter-padding (b * 4) in
    let first = first_byte-parts a b ha hb in
    let second : second_byte ((a * 16 + b / 16) % 64) (b * 4 % 64) ≡ b = last_second a b hb in
    ground (arith, w, x, y, py, first, second)

decode_group-one :
    (a : ℕ)
    → a < 256
    → decode_group (letter (a / 4)) (letter (a * 16)) b'=' b'=' [] (some []) ≡ some (a ∷ [])
unfolding decode_group ended
decode_group-one a ha =
    let w = value-letter (a / 4) in
    let x = value-letter (a * 16) in
    let first : first_byte (a / 4 % 64) (a * 16 % 64) ≡ a = last_first a ha in
    ground (arith, w, x, first)

-- The encoder writes no new line.
HasNoLines : Bytes → Type 0
HasNoLines s = All (λ c. is_new_line c ≡ false) s

encode_to_string-HasNoLines : (s : Bytes) → HasNoLines (encode_to_string s)
unfolding encode_to_string HasNoLines is_new_line
encode_to_string-HasNoLines [] = tt
encode_to_string-HasNoLines (a ∷ []) =
    (letter-new_line (a / 4), (letter-new_line (a * 16), (refl, (refl, tt))))
encode_to_string-HasNoLines (a ∷ b ∷ []) = (
  letter-new_line (a / 4),
  (letter-new_line (a * 16 + b / 16), (letter-new_line (b * 4), (refl, tt))),
)
encode_to_string-HasNoLines (a ∷ b ∷ c ∷ rest) = (
  letter-new_line (a / 4),
  (
    letter-new_line (a * 16 + b / 16),
    (letter-new_line (b * 4 + c / 64), (letter-new_line c, encode_to_string-HasNoLines rest)),
  ),
)

skipped : (s : Bytes) → HasNoLines s → keep (λ c. not (is_new_line c)) s ≡ s
unfolding HasNoLines
skipped [] h = refl
skipped (c ∷ s) (h, hs) = let ih = skipped s hs in ground (arith, h, ih)

decode_groups-encode_to_string :
    (s : Bytes) → All (λ c. c < 256) s → decode_groups (encode_to_string s) ≡ some s
unfolding encode_to_string decode_groups
decode_groups-encode_to_string [] h = refl
decode_groups-encode_to_string (a ∷ []) (ha, _) = decode_group-one a ha
decode_groups-encode_to_string (a ∷ b ∷ []) (ha, (hb, _)) = decode_group-two a b ha hb
decode_groups-encode_to_string (a ∷ b ∷ c ∷ rest) (ha, (hb, (hc, h))) =
    decode_group-three a b c (encode_to_string rest) rest (decode_groups (encode_to_string rest)) ha
      hb hc (decode_groups-encode_to_string rest h)

pub decode_string-encode_to_string :
    (s : Bytes) → All (λ c. c < 256) s → decode_string (encode_to_string s) ≡ some s
unfolding decode_string
decode_string-encode_to_string s h =
    ap decode_groups (skipped (encode_to_string s) (encode_to_string-HasNoLines s))
    ∙ decode_groups-encode_to_string s h

pub encode_to_string-full : (s : Bytes) → 0 < length s → is_empty (encode_to_string s) ≡ false
unfolding encode_to_string
encode_to_string-full [] h = absurd (omega (arith, h))
encode_to_string-full (a ∷ []) h = refl
encode_to_string-full (a ∷ b ∷ []) h = refl
encode_to_string-full (a ∷ b ∷ c ∷ rest) h = refl
