-- ===== src/Robots/Match.antt =====
-- matchPattern and patternLength (internal/robots/parser.go).
pub mod Greedy
pub mod Anchor
use seo_crawler_mcp.Prelude.{
  is_empty, ℕ, ◌+◌, ◌-◌, Bool, true, false, not, Option, none, some, List, [], ◌∷◌, Bytes, codes,
  length, take, drop, if◌then◌else◌, bytes_eq, has_prefix, has_suffix, contains, index,
}
use seo_crawler_mcp.Prelude.Split.{split}

unfoldable pub has_anchor : Bytes → Bool
has_anchor pattern = has_suffix pattern (codes "$")

-- The pattern without its anchor.
unfoldable pub unanchored : Bytes → Bytes
unanchored pattern = if has_anchor pattern then take (length pattern - 1) pattern else pattern

unfoldable pub pattern_length : Bytes → ℕ
pattern_length pattern = length (unanchored pattern)

-- The loop over the parts between stars, with what remains of the path: the first part must be a
-- prefix, a later one is found at its first place.
unfoldable pub match_parts : Bool → List Bytes → Bytes → Option Bytes
match_parts first [] remaining = some remaining
match_parts first (part ∷ parts) remaining =
    let skipped = match_parts false parts remaining in
    let prefixed = match_parts false parts (drop (length part) remaining) in
    let found : Option Bytes = elim (index remaining part) [
      | none ↦ none
      | some i ↦ match_parts false parts (drop (i + length part) remaining)
    ] in
    if is_empty part
    then skipped
    else if first
    then (if has_prefix remaining part then prefixed else none)
    else found

unfoldable pub match_pattern : Bytes → Bytes → Bool
match_pattern path pattern =
    let anchored = has_anchor pattern in
    let p = unanchored pattern in
    if not (contains p (codes "*"))
    then (if anchored then bytes_eq path p else has_prefix path p)
    else elim (match_parts true (split b'*' p) path) [
      | none ↦ false
      | some remaining ↦
          if anchored then (if has_suffix p (codes "*") then true else is_empty remaining) else true
    ]
