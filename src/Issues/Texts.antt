-- ===== src/Issues/Texts.antt =====
-- The tests on texts that the detectors use (internal/issues/pagelocal.go). Letters are those of
-- ASCII.
pub mod Directives
pub mod Hreflang
use seo_crawler_mcp.Prelude.{
  ℕ, suc, ◌-◌, Bool, true, false, not, ◌&&◌, ◌||◌, Option, none, some, List, [], ◌∷◌, Bytes, codes,
  if◌then◌else◌, leb, ltb, ◌==◌, length, any, all, bytes_eq, bytes_mem, is_empty, to_lower,
  trim_space, trim_left, trim_right, index_byte, take, drop,
}
use seo_crawler_mcp.Prelude.Split.{split}

unfoldable pub non_descriptive_anchors : List Bytes
non_descriptive_anchors =
    codes "click here"
    ∷ codes "read more"
    ∷ codes "learn more"
    ∷ codes "here"
    ∷ codes "this"
    ∷ codes "more"
    ∷ codes "link"
    ∷ codes "go"
    ∷ codes "visit"
    ∷ []

unfoldable pub is_non_descriptive_anchor : Bytes → Bool
is_non_descriptive_anchor anchor = bytes_mem (to_lower (trim_space anchor)) non_descriptive_anchors

unfoldable pub is_upper : ℕ → Bool
is_upper c = leb b'A' c && leb c b'Z'

unfoldable pub has_uppercase : Bytes → Bool
has_uppercase s = any is_upper s

-- The runes of a well-formed text: its bytes but those that continue a rune.
unfoldable pub rune_count : Bytes → ℕ
rune_count [] = 0
rune_count (c ∷ s) = let rest = rune_count s in if leb 128 c && ltb c 192 then rest else suc rest

-- The loop over neighbours, with the segment before.
unfoldable pub repeated_after : Bytes → List Bytes → Bytes
repeated_after previous [] = []
repeated_after previous (s ∷ ss) =
    let later = repeated_after s ss in if not (is_empty s) && bytes_eq s previous then s else later

unfoldable pub find_repetitive_segment : Bytes → Bytes
find_repetitive_segment path =
    elim (split b'/' (trim_right (◌==◌ b'/') (trim_left (◌==◌ b'/') path))) [
      | [] ↦ []
      | s ∷ ss ↦ repeated_after s ss
    ]

-- A set of directives as a list without repetitions.
unfoldable pub add_directive : Bytes → List Bytes → List Bytes
add_directive d set = if bytes_mem d set then set else d ∷ set

unfoldable pub collect_directives : List Bytes → List Bytes
collect_directives [] = []
collect_directives (part ∷ parts) =
    let d = trim_space (to_lower part) in
    let rest = collect_directives parts in if is_empty d then rest else add_directive d rest

unfoldable pub parse_robots_directives : Bytes → List Bytes
parse_robots_directives raw = collect_directives (split b',' raw)

unfoldable pub directives_match : List Bytes → List Bytes → Bool
directives_match a b = length a == length b && all (λ k. bytes_mem k b) a

-- The first value of the header under exactly this name, if the name is there with a value.
unfoldable pub lookup_header : List (Bytes × List Bytes) → Bytes → Option Bytes
lookup_header [] key = none
lookup_header ((k, vals) ∷ headers) key =
    let later = lookup_header headers key in
    if bytes_eq k key then elim vals [ [] ↦ none | v ∷ vs ↦ some v ] else later

unfoldable pub search_header : List (Bytes × List Bytes) → Bytes → Bytes
search_header [] key_lower = []
search_header ((k, vals) ∷ headers) key_lower =
    let later = search_header headers key_lower in
    elim vals [ [] ↦ later | v ∷ vs ↦ if bytes_eq (to_lower k) key_lower then v else later ]

unfoldable pub get_header : List (Bytes × List Bytes) → Bytes → Bytes
get_header headers key = elim (lookup_header headers key) [
  | some v ↦ v
  | none ↦ search_header headers (to_lower key)
]

unfoldable pub secure_policies : List Bytes
secure_policies =
    codes "no-referrer"
    ∷ codes "no-referrer-when-downgrade"
    ∷ codes "strict-origin"
    ∷ codes "strict-origin-when-cross-origin"
    ∷ codes "same-origin"
    ∷ codes "origin"
    ∷ codes "origin-when-cross-origin"
    ∷ []

unfoldable pub is_secure_referrer_policy : Bytes → Bool
is_secure_referrer_policy policy = bytes_mem (trim_space (to_lower policy)) secure_policies
