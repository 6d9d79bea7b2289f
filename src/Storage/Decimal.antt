-- ===== src/Storage/Decimal.antt =====
-- strconv.FormatInt and strconv.ParseInt in base 10, as the cursors of internal/storage/queries.go use
-- them: FormatInt writes the digits from the last one, ParseInt takes a sign and refuses what is no int64.
use seo_crawler_mcp.Prelude.{
  ℕ, zero, suc, ◌+◌, ◌-◌, ◌*◌, ◌/◌, ◌%◌, ◌<◌, Bool, true, false, ◌&&◌, Option, none, some, [], ◌∷◌,
  Bytes, is_empty, if◌then◌else◌, ltb, leb, ◌==◌, ltb→lt, Bool-cases, All, length, ◌≡◌, refl, sym,
  ap, subst, ◌∙◌, inl, inr, arith,
}
use seo_crawler_mcp.Prelude.Int.{ℤ, pos, negsuc, neg_ℕ}

abbrev pub int64_bound : ℕ
int64_bound = 9223372036854775808

unfoldable pub digits : ℕ → ℕ → Bytes → Bytes
digits zero n acc = acc
digits (suc fuel) n acc =
    let more = digits fuel (n / 10) ((48 + n % 10) ∷ acc) in
    if ltb n 10 then (48 + n) ∷ acc else more

-- An int64 has 19 digits at most.
unfoldable pub format_int : ℤ → Bytes
format_int (pos n) = digits 19 n []
format_int (negsuc n) = b'-' ∷ digits 19 (suc n) []

unfoldable pub is_digit : ℕ → Bool
is_digit c = leb 48 c && leb c 57

unfoldable pub parse_digits : Bytes → ℕ → Option ℕ
parse_digits [] n = some n
parse_digits (c ∷ cs) n =
    let rest = parse_digits cs (n * 10 + (c - 48)) in if is_digit c then rest else none

unfoldable pub parse_magnitude : Bytes → Option ℕ
parse_magnitude s = if is_empty s then none else parse_digits s 0

unfoldable pub parse_int : Bytes → Option ℤ
parse_int [] = none
parse_int (c ∷ cs) =
    if c == b'-'
    then elim (parse_magnitude cs) [
      | none ↦ none
      | some n ↦ if leb n int64_bound then some (neg_ℕ n) else none
    ]
    else elim (parse_magnitude (if c == b'+' then cs else c ∷ cs)) [
      | none ↦ none
      | some n ↦ if ltb n int64_bound then some (pos n) else none
    ]

abbrev pub power : ℕ → ℕ
power zero = 1
power (suc n) = 10 * power n

parse_digits-digit :
    (d m n : ℕ) (acc : Bytes)
    → d < 10
    → m * 10 + d ≡ n
    → parse_digits ((48 + d) ∷ acc) m ≡ parse_digits acc n
unfolding parse_digits is_digit
parse_digits-digit d m n acc small h =
    let value : m * 10 + ((48 + d) - 48) ≡ n = omega (arith, h) in
    let digit : (leb 48 (48 + d) && leb (48 + d) 57) ≡ true = ground (arith, small) in
    let rest = ap (parse_digits acc) value in ground (arith, rest, digit)

pub parse_digits-digits :
    (fuel n : ℕ) (acc : Bytes)
    → n < power fuel
    → parse_digits (digits fuel n acc) 0 ≡ parse_digits acc n
unfolding digits
parse_digits-digits zero n acc h = let z : n ≡ 0 = omega (arith, h) in ap (parse_digits acc) (sym z)
parse_digits-digits (suc fuel) n acc h = elim (Bool-cases (ltb n 10)) [
  | inl e ↦
      let one = parse_digits-digit n 0 n acc (ltb→lt n 10 e) (omega arith) in
      subst
        (λ b.
          parse_digits (if b then (48 + n) ∷ acc else digits fuel (n / 10) ((48 + n % 10) ∷ acc)) 0
          ≡ parse_digits acc n)
        (sym e) one
  | inr e ↦
      let ih = parse_digits-digits fuel (n / 10) ((48 + n % 10) ∷ acc) (omega (arith, h)) in
      let one = parse_digits-digit (n % 10) (n / 10) n acc (omega arith) (omega arith) in
      subst
        (λ b.
          parse_digits (if b then (48 + n) ∷ acc else digits fuel (n / 10) ((48 + n % 10) ∷ acc)) 0
          ≡ parse_digits acc n)
        (sym e) (ih ∙ one)
]

-- The text of a number is digits.
IsDigits : Bytes → Type 0
IsDigits s = All (λ c. is_digit c ≡ true) s

digits-IsDigits : (fuel n : ℕ) (acc : Bytes) → IsDigits acc → IsDigits (digits fuel n acc)
unfolding digits is_digit IsDigits
digits-IsDigits zero n acc h = h
digits-IsDigits (suc fuel) n acc h =
    let last : is_digit (48 + n % 10) ≡ true = ground arith in
    elim (Bool-cases (ltb n 10)) [
      | inl e ↦
          let first : is_digit (48 + n) ≡ true = ground (arith, e) in
          subst
            (λ b.
              IsDigits (if b then (48 + n) ∷ acc else digits fuel (n / 10) ((48 + n % 10) ∷ acc)))
            (sym e) (first, h)
      | inr e ↦
          subst
            (λ b.
              IsDigits (if b then (48 + n) ∷ acc else digits fuel (n / 10) ((48 + n % 10) ∷ acc)))
            (sym e) (digits-IsDigits fuel (n / 10) ((48 + n % 10) ∷ acc) (last, h))
    ]

-- And not empty.
digits_full : (fuel n : ℕ) (acc : Bytes) → 0 < length acc → 0 < length (digits fuel n acc)
unfolding digits
digits_full zero n acc h = h
digits_full (suc fuel) n acc h =
    let ih = digits_full fuel (n / 10) ((48 + n % 10) ∷ acc) (omega arith) in ground (arith, ih)

digits_started : (fuel n : ℕ) → 0 < length (digits (suc fuel) n [])
unfolding digits
digits_started fuel n =
    let ih = digits_full fuel (n / 10) ((48 + n % 10) ∷ []) (omega arith) in ground (arith, ih)

pub format_int-full : (n : ℕ) → 0 < length (format_int (pos n))
unfolding format_int
format_int-full n = digits_started 18 n

-- Digits start with no sign.
parse_int_of_digits :
    (s : Bytes) (n : ℕ)
    → IsDigits s
    → 0 < length s
    → parse_digits s 0 ≡ some n
    → n < int64_bound
    → parse_int s ≡ some (pos n)
unfolding parse_int parse_magnitude is_digit IsDigits
parse_int_of_digits [] n h full value small = absurd (omega (arith, full))
parse_int_of_digits (c ∷ cs) n (h, hs) full value small =
    let minus : (c == b'-') ≡ false = ground (arith, h) in
    let plus : (c == b'+') ≡ false = ground (arith, h) in
    let fits : ltb n int64_bound ≡ true = ground (arith, small) in
    ap
      (λ b.
        if b
        then elim (parse_magnitude cs) [
          | none ↦ none
          | some n' ↦ if leb n' int64_bound then some (neg_ℕ n') else none
        ]
        else elim (parse_magnitude (if c == b'+' then cs else c ∷ cs)) [
          | none ↦ none
          | some n' ↦ if ltb n' int64_bound then some (pos n') else none
        ])
      minus
    ∙ ap
        (λ b. elim (parse_magnitude (if b then cs else c ∷ cs)) [
          | none ↦ none
          | some n' ↦ if ltb n' int64_bound then some (pos n') else none
        ])
        plus
    ∙ ap
        (λ o. elim o [ none ↦ none | some n' ↦ if ltb n' int64_bound then some (pos n') else none ])
        value
    ∙ ap (λ b. if b then some (pos n) else none) fits

parse_digits_nil : (n : ℕ) → parse_digits [] n ≡ some n
unfolding parse_digits
parse_digits_nil n = refl

pub parse_int-format_int : (n : ℕ) → n < int64_bound → parse_int (format_int (pos n)) ≡ some (pos n)
unfolding format_int IsDigits
parse_int-format_int n small =
    parse_int_of_digits (digits 19 n []) n (digits-IsDigits 19 n [] tt) (digits_started 18 n)
      (parse_digits-digits 19 n [] (enough n small) ∙ parse_digits_nil n) small
  where
    enough : (n : ℕ) → n < int64_bound → n < power 19
    enough n h = omega (arith, h)

digits_are_bytes : (s : Bytes) → IsDigits s → All (λ c. c < 256) s
unfolding IsDigits is_digit
digits_are_bytes [] h = tt
digits_are_bytes (c ∷ s) (h, hs) = (ground (arith, h), digits_are_bytes s hs)

pub format_int-All : (n : ℕ) → All (λ c. c < 256) (format_int (pos n))
unfolding format_int IsDigits
format_int-All n = digits_are_bytes (digits 19 n []) (digits-IsDigits 19 n [] tt)
