-- ===== src/Issues/Texts/Directives.antt =====
-- Sets of robots directives: that directivesMatch decides whether two texts name the same ones.
use seo_crawler_mcp.Prelude.{
  suc, ◌≤◌, true, false, ◌||◌, List, [], ◌∷◌, Bytes, if◌then◌else◌, length, all, Any, here, there,
  bytes_eq, bytes_eq_iff, bytes_eq_refl, bytes_mem, is_empty, to_lower, trim_space, Bool-cases, ◌≡◌,
  ◌≢◌, ◌↔◌, inl, inr, refl, sym, ◌∙◌, arith,
}
use seo_crawler_mcp.Prelude.Split.{split}
use seo_crawler_mcp.Issues.Texts.{
  add_directive, collect_directives, parse_robots_directives, directives_match,
}

abbrev IsSubset : List Bytes → List Bytes → Type 0
IsSubset a b = (d : Bytes) → bytes_mem d a ≡ true → bytes_mem d b ≡ true

abbrev HasNoRepeats : List Bytes → Type 0
HasNoRepeats [] = Unit
HasNoRepeats (d ∷ a) = (bytes_mem d a ≡ false) × HasNoRepeats a

bytes_mem-cons :
    (d x : Bytes) (a : List Bytes) → bytes_mem d (x ∷ a) ≡ (bytes_eq d x || bytes_mem d a)
unfolding bytes_mem
bytes_mem-cons d x a = refl

-- The list without the first occurrence of a text.
remove : Bytes → List Bytes → List Bytes
remove x [] = []
remove x (y ∷ b) = let rest = remove x b in if bytes_eq x y then b else y ∷ rest

length-remove :
    (x : Bytes) (b : List Bytes) → bytes_mem x b ≡ true → length b ≡ suc (length (remove x b))
unfolding remove bytes_mem
length-remove x [] h = absurd (cc h)
length-remove x (y ∷ b) h = ground (arith, length-remove x b)

mem-remove :
    (d x : Bytes) (b : List Bytes)
    → bytes_eq d x ≡ false
    → bytes_mem d b ≡ true
    → bytes_mem d (remove x b) ≡ true
unfolding remove bytes_mem
mem-remove d x [] differ h = absurd (cc h)
mem-remove d x (y ∷ b) differ h = elim (Bool-cases (bytes_eq x y)) [
  | inl same ↦ ground (arith, same, h, differ, bytes_eq_iff x y)
  | inr other ↦ ground (arith, other, h, mem-remove d x b differ)
]

differ_of_mem :
    (d x : Bytes) (a : List Bytes)
    → bytes_mem x a ≡ false
    → bytes_mem d a ≡ true
    → bytes_eq d x ≡ false
differ_of_mem d x a out within = elim (Bool-cases (bytes_eq d x)) [
  | inl same ↦ let e = (bytes_eq_iff d x).0 same in absurd (cc (e, out, within))
  | inr other ↦ other
]

-- Different members of a list are at most as many as its entries.
length_of_subset : (a b : List Bytes) → HasNoRepeats a → IsSubset a b → length a ≤ length b
length_of_subset [] b once sub = omega arith
length_of_subset (x ∷ a) b (out, once) sub =
    let first = sub x (ground (arith, bytes_mem-cons x x a, bytes_eq_refl x)) in
    let rest = length_of_subset a (remove x b) once λ d h.
      mem-remove d x b (differ_of_mem d x a out h)
        (sub d (ground (arith, bytes_mem-cons d x a, h))) in
    omega (arith, rest, length-remove x b first)

subset_of_length :
    (a b : List Bytes) → HasNoRepeats a → IsSubset a b → length a ≡ length b → IsSubset b a
subset_of_length a b once sub same d within = elim (Bool-cases (bytes_mem d a)) [
  | inl there_too ↦ there_too
  | inr out ↦
      let larger =
        length_of_subset (d ∷ a) b (out, once)
          λ e h. elim (Bool-cases (bytes_eq e d)) [
            | inl is_d ↦ let p = (bytes_eq_iff e d).0 is_d in cc (p, within)
            | inr other ↦ sub e (ground (arith, bytes_mem-cons e d a, h, other))
          ] in
      absurd (omega (arith, larger, same))
]

mem_nil : (d : Bytes) → bytes_mem d [] ≡ false
unfolding bytes_mem
mem_nil d = refl

all_mem_iff : (a b : List Bytes) → (all (λ k. bytes_mem k b) a ≡ true) ↔ IsSubset a b
all_mem_iff [] b = (λ h d within. absurd (cc (within, mem_nil d)), λ sub. refl)
all_mem_iff (x ∷ a) b = (
  λ h d within. elim (Bool-cases (bytes_eq d x)) [
    | inl is_x ↦ let p = (bytes_eq_iff d x).0 is_x in ground (arith, h, p)
    | inr other ↦
        (all_mem_iff a b).0 (ground (arith, h)) d
          (ground (arith, bytes_mem-cons d x a, within, other))
  ],
  λ sub.
      let first = sub x (ground (arith, bytes_mem-cons x x a, bytes_eq_refl x)) in
      let rest = (all_mem_iff a b).1 λ d h. sub d (ground (arith, bytes_mem-cons d x a, h)) in
      ground (arith, first, rest),
)

-- One of the parts is the directive, when its case and the spaces around it are set aside.
abbrev pub Names : List Bytes → Bytes → Type 0
Names parts d = (d ≢ []) × Any (λ part. trim_space (to_lower part) ≡ d) parts

collect-HasNoRepeats : (parts : List Bytes) → HasNoRepeats (collect_directives parts)
unfolding collect_directives add_directive
collect-HasNoRepeats [] = tt
collect-HasNoRepeats (part ∷ parts) =
    let d = trim_space (to_lower part) in
    let rest = collect-HasNoRepeats parts in
    elim (Bool-cases (is_empty d)) [
      | inl blank ↦ rw blank rest
      | inr named ↦ elim (Bool-cases (bytes_mem d (collect_directives parts))) [
        | inl again ↦ rw (named, again) rest
        | inr first ↦ rw (named, first) (first, rest)
      ]
    ]

mem-add_directive :
    (e d : Bytes) (set : List Bytes)
    → bytes_mem e (add_directive d set) ≡ (bytes_eq e d || bytes_mem e set)
unfolding add_directive
mem-add_directive e d set = elim (Bool-cases (bytes_mem d set)) [
  | inr first ↦ ground (arith, first, bytes_mem-cons e d set)
  | inl again ↦ elim (Bool-cases (bytes_eq e d)) [
    | inl same ↦ let p = (bytes_eq_iff e d).0 same in ground (arith, again, same, p)
    | inr other ↦ ground (arith, again, other)
  ]
]

empty_of : (s : Bytes) → is_empty s ≡ true → s ≡ []
empty_of [] h = refl
empty_of (c ∷ s) h = absurd (cc h)

filled : (s : Bytes) → is_empty s ≡ false → s ≢ []
filled [] h = absurd (cc h)
filled (c ∷ s) h = λ e. absurd (cc e)

collect-Names :
    (parts : List Bytes) (d : Bytes)
    → (bytes_mem d (collect_directives parts) ≡ true) ↔ Names parts d
unfolding collect_directives add_directive
collect-Names [] d = (λ h. absurd (cc (h, mem_nil d)), λ (named, h). elim h [ ])
collect-Names (part ∷ parts) d =
    let own = trim_space (to_lower part) in
    let (sound, complete) = collect-Names parts d in
    elim (Bool-cases (is_empty own)) [
      | inl blank ↦ rw blank (
        λ h. let (named, later) = sound h in (named, there later),
        λ (named, h). elim h [
          | here is_own ↦ absurd (named (sym is_own ∙ empty_of own blank))
          | there later ↦ complete (named, later)
        ],
      )
      | inr given ↦ rw given (
        λ h. elim (Bool-cases (bytes_eq d own)) [
          | inl is_own ↦
              let p = (bytes_eq_iff d own).0 is_own in
              (λ none_left. filled own given (sym p ∙ none_left), here (sym p))
          | inr other ↦
              let (named, later) =
                sound
                  (ground (arith, h, other, mem-add_directive d own (collect_directives parts))) in
              (named, there later)
        ],
        λ (named, h). elim h [
          | here is_own ↦ ground (
            arith,
            mem-add_directive d own (collect_directives parts),
            (bytes_eq_iff d own).1 (sym is_own),
          )
          | there later ↦
              ground
                (arith, mem-add_directive d own (collect_directives parts), complete (named, later))
        ],
      )
    ]

-- directivesMatch says yes exactly when the two texts name the same directives, whatever their order,
-- how often they stand there, their letters' case, and the spaces and empty parts between the commas.
pub directives_match_iff :
    (a b : Bytes)
    → (directives_match (parse_robots_directives a) (parse_robots_directives b) ≡ true)
      ↔ ((d : Bytes) → Names (split b',' a) d ↔ Names (split b',' b) d)
unfolding parse_robots_directives directives_match
directives_match_iff a b =
    let xs = collect_directives (split b',' a) in
    let ys = collect_directives (split b',' b) in
    (
      λ h d.
          let sub = (all_mem_iff xs ys).0 (ground (arith, h)) in
          let back =
            subset_of_length xs ys (collect-HasNoRepeats (split b',' a)) sub (ground (arith, h)) in
          (
            λ n. (collect-Names (split b',' b) d).0 (sub d ((collect-Names (split b',' a) d).1 n)),
            λ n. (collect-Names (split b',' a) d).0 (back d ((collect-Names (split b',' b) d).1 n)),
          ),
      λ h.
          let sub : IsSubset xs ys = λ d m.
            (collect-Names (split b',' b) d).1 ((h d).0 ((collect-Names (split b',' a) d).0 m)) in
          let back : IsSubset ys xs = λ d m.
            (collect-Names (split b',' a) d).1 ((h d).1 ((collect-Names (split b',' b) d).0 m)) in
          let le = length_of_subset xs ys (collect-HasNoRepeats (split b',' a)) sub in
          let ge = length_of_subset ys xs (collect-HasNoRepeats (split b',' b)) back in
          ground (arith, le, ge, (all_mem_iff xs ys).1 sub),
    )
