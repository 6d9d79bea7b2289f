-- ===== src/UrlGroup.antt =====
-- The groups of pages by URL in internal/urlgroup/groups.go. The pages are the rows of the query with
-- the column url_group, which the transaction clears first; path.Match and the path that net/url finds
-- in a URL are arguments, `none` for an error.
pub mod Assigned
use seo_crawler_mcp.Prelude.{
  ℕ, ◌+◌, Bool, true, false, not, ◌&&◌, ◌||◌, Option, none, some, List, [], ◌∷◌, ◌++◌, Bytes, codes,
  is_empty, bytes_eq, any, keep, map, length, take, drop, has_prefix, trim_prefix, trim_right, leb,
  ◌==◌, if◌then◌else◌,
}
use seo_crawler_mcp.Prelude.Split.{split}
use seo_crawler_mcp.Config.{UrlGroupConfig}

abbrev pub min_auto_group_size : ℕ
min_auto_group_size = 10

pub record PageEntry : Type 0 where
  pub url_id : ℕ
  pub raw_url : Bytes
  pub url_group : Option Bytes

-- A row of url_pattern_groups.
pub record PatternGroup : Type 0 where
  pub pattern : Bytes
  pub name : Bytes
  pub is_auto : Bool

unfoldable pub no_slashes_after : Bytes → Bytes
no_slashes_after s = trim_right (λ c. c == b'/') s

unfoldable pub first_segment : List Bytes → Bytes
first_segment (before ∷ segment ∷ rest) =
    if is_empty segment then codes "/" else codes "/" ++ segment
first_segment _ = codes "/"

-- The text before the first of *, ? and [, or none.
unfoldable pub before_glob : Bytes → Option Bytes
before_glob [] = none
before_glob (c ∷ s) =
    let later : Option Bytes = elim (before_glob s) [ none ↦ none | some base ↦ some (c ∷ base) ] in
    if c == b'*' || c == b'?' || c == b'[' then some [] else later

unfoldable pub glob_pattern_base : Bytes → Bytes
glob_pattern_base pattern = elim (before_glob pattern) [
  | none ↦ []
  | some text ↦ let base = no_slashes_after text in if is_empty base then codes "/" else base
]

unfoldable pub dashed : Bytes → Bytes
dashed name = map (λ c. if c == b'/' then b'-' else c) name

unfoldable pub pattern_to_name : Bytes → Bytes
pattern_to_name pattern =
    let name = dashed (trim_prefix pattern (codes "/")) in
    if is_empty name then codes "root" else name

module _ (path_match : Bytes → Bytes → Option Bool) (path_of : Bytes → Option Bytes) where
  unfoldable pub match_path_pattern : Bytes → Bytes → Bool
  match_path_pattern value pattern =
      if is_empty pattern
      then false
      else elim (path_match pattern value) [ none ↦ false | some b ↦ b ]

  unfoldable pub extract_pattern : Bytes → Bytes
  extract_pattern raw_url = elim (path_of raw_url) [
    | none ↦ []
    | some path ↦
        let trimmed = no_slashes_after path in
        if is_empty trimmed then codes "/" else first_segment (split b'/' trimmed)
  ]

  -- A prefix that ends at the end of a segment.
  unfoldable pub matches_pattern : Bytes → Bytes → Bool
  matches_pattern raw_url pattern = elim (path_of raw_url) [
    | none ↦ false
    | some path ↦
        if match_path_pattern path pattern
        then true
        else if not (has_prefix path pattern)
        then false
        else is_empty (drop (length pattern) path)
          || has_prefix (drop (length pattern) path) (codes "/")
  ]

  unfoldable pub pattern_covers_pattern : Bytes → Bytes → Bool
  pattern_covers_pattern pattern user_pattern =
      let base = glob_pattern_base user_pattern in
      if match_path_pattern pattern user_pattern
      then true
      else if not (is_empty base)
      then bytes_eq pattern base || has_prefix pattern (base ++ codes "/")
      else if bytes_eq pattern user_pattern
      then true
      else if not (has_prefix pattern user_pattern)
      then false
      else has_prefix (drop (length user_pattern) pattern) (codes "/")

  unfoldable pub cleared : PageEntry → PageEntry
  cleared p = record p { url_group = none }

  unfoldable pub assign_user : UrlGroupConfig → PageEntry → PageEntry
  assign_user ug p =
      if matches_pattern p.raw_url ug.pattern then record p { url_group = some ug.name } else p

  unfoldable pub assign_users : List UrlGroupConfig → List PageEntry → List PageEntry
  assign_users [] pages = pages
  assign_users (ug ∷ ugs) pages = assign_users ugs (map (assign_user ug) pages)

  -- A pattern that pages are grouped by: neither empty nor the root.
  unfoldable pub is_grouped : Bytes → Bool
  is_grouped pattern = not (is_empty pattern) && not (bytes_eq pattern (codes "/"))

  unfoldable pub entries_of : Bytes → List PageEntry → List PageEntry
  entries_of pattern pages =
      keep (λ p. is_grouped pattern && bytes_eq (extract_pattern p.raw_url) pattern) pages

  unfoldable pub is_overridden : List UrlGroupConfig → Bytes → Bool
  is_overridden ugs pattern = any (λ ug. pattern_covers_pattern pattern ug.pattern) ugs

  -- A pattern becomes a group of its own.
  unfoldable pub is_auto_group : List UrlGroupConfig → List PageEntry → Bytes → Bool
  is_auto_group ugs pages pattern =
      leb min_auto_group_size (length (entries_of pattern pages)) && not (is_overridden ugs pattern)

  unfoldable pub assign_auto : Bytes → PageEntry → PageEntry
  assign_auto pattern p = elim p.url_group [
    | some name ↦ p
    | none ↦
        if is_grouped pattern && bytes_eq (extract_pattern p.raw_url) pattern
        then record p { url_group = some (pattern_to_name pattern) }
        else p
  ]

  -- The loop over the map of patterns, in the order in which it is walked.
  unfoldable pub assign_autos :
      List UrlGroupConfig → List PageEntry → List Bytes → List PageEntry → List PageEntry
  assign_autos ugs pages [] grouped = grouped
  assign_autos ugs pages (pattern ∷ patterns) grouped =
      let next =
        if is_auto_group ugs pages pattern then map (assign_auto pattern) grouped else grouped in
      assign_autos ugs pages patterns next

  unfoldable pub user_group : UrlGroupConfig → PatternGroup
  user_group ug = record { pattern = ug.pattern; name = ug.name; is_auto = false }

  unfoldable pub auto_group : Bytes → PatternGroup
  auto_group pattern = record { pattern = pattern; name = pattern_to_name pattern; is_auto = true }

  -- The groups that are written and the pages with theirs; `patterns` are the keys of the map.
  unfoldable pub detect_groups :
      List UrlGroupConfig → List Bytes → List PageEntry → List PatternGroup × List PageEntry
  detect_groups ugs patterns pages = (
    map user_group ugs ++ map auto_group (keep (is_auto_group ugs pages) patterns),
    assign_autos ugs pages patterns (assign_users ugs (map cleared pages)),
  )
