-- ===== src/Tests/UrlGroup.antt =====
-- A run of internal/urlgroup on a few pages, and its theorem there.
use seo_crawler_mcp.Prelude.{
  Bool, true, false, Option, none, some, List, [], ◌∷◌, Bytes, codes, map, bytes_eq, has_prefix,
  trim_prefix, trim_left, trim_right, reverse, ◌≡◌, refl,
}
use seo_crawler_mcp.Prelude.Split.{split, cons_head}
use seo_crawler_mcp.Config.{UrlGroupConfig}
use seo_crawler_mcp.UrlGroup.{
  PageEntry, no_slashes_after, first_segment, before_glob, glob_pattern_base, dashed,
  pattern_to_name, match_path_pattern, extract_pattern, matches_pattern, pattern_covers_pattern,
  is_grouped, entries_of, is_overridden, is_auto_group, user_group, auto_group, detect_groups,
}
use seo_crawler_mcp.UrlGroup.Assigned.{
  or_else, with_group, user_name, auto_name, detect_groups_pages,
}

-- No pattern has a star, and a URL is its path.
abbrev path_match : Bytes → Bytes → Option Bool
path_match pattern value = some (bytes_eq pattern value)

abbrev path_of : Bytes → Option Bytes
path_of url = some url

abbrev page : Bytes → PageEntry
page url = record { url_id = 1; raw_url = url; url_group = some (codes "old") }

abbrev in_group : Bytes → Bytes → PageEntry
in_group name url = record { url_id = 1; raw_url = url; url_group = some name }

abbrev ten_docs : List PageEntry → List PageEntry
ten_docs rest =
    page (codes "/docs/1")
    ∷ page (codes "/docs/2")
    ∷ page (codes "/docs/3")
    ∷ page (codes "/docs/4")
    ∷ page (codes "/docs/5")
    ∷ page (codes "/docs/6")
    ∷ page (codes "/docs/7")
    ∷ page (codes "/docs/8")
    ∷ page (codes "/docs/9/")
    ∷ page (codes "/docs")
    ∷ rest

abbrev pages : List PageEntry
pages = page (codes "/blogs") ∷ page (codes "/blog/a") ∷ ten_docs []

abbrev blog : UrlGroupConfig
blog = record { name = codes "news"; pattern = codes "/blog"; thin_content_threshold = none }

two_groups :
    (detect_groups path_match path_of (blog ∷ []) (codes "/blog" ∷ codes "/docs" ∷ []) pages).0
    ≡ record { pattern = codes "/blog"; name = codes "news"; is_auto = false }
      ∷ record { pattern = codes "/docs"; name = codes "docs"; is_auto = true }
      ∷ []
unfolding detect_groups user_group auto_group is_auto_group entries_of is_overridden
    pattern_covers_pattern is_grouped extract_pattern first_segment no_slashes_after
    match_path_pattern glob_pattern_base before_glob pattern_to_name dashed split cons_head
    trim_right trim_left trim_prefix has_prefix bytes_eq map reverse
two_groups = refl

-- A prefix of a segment is not one of a path.
prefix_of_segment : matches_pattern path_match path_of (codes "/blogs") (codes "/blog") ≡ false
unfolding matches_pattern match_path_pattern has_prefix bytes_eq
prefix_of_segment = refl

detect_groups_pages_example :
    (detect_groups path_match path_of (blog ∷ []) (codes "/blog" ∷ codes "/docs" ∷ []) pages).1
    ≡ map
        (with_group path_match path_of (λ p.
          or_else (user_name path_match path_of (blog ∷ []) p.raw_url) (
            auto_name path_match path_of
              (blog ∷ [])
              pages
              (codes "/blog" ∷ codes "/docs" ∷ [])
              p.raw_url)))
        pages
detect_groups_pages_example =
    detect_groups_pages path_match path_of (blog ∷ []) pages (codes "/blog" ∷ codes "/docs" ∷ [])
