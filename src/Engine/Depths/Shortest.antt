-- ===== src/Engine/Depths/Shortest.antt =====
-- The depths that are written are the lengths of shortest walks.
use seo_crawler_mcp.Prelude.{
  ℕ, ◌≤◌, true, some, List, [], Bytes, bytes_mem, map, length, Bool-cases, ◌≡◌, refl, sym, ap, ◌∙◌,
  subst, ◌⊎◌, inl, inr, arith,
}
use seo_crawler_mcp.UrlUtil.Normalize.{Parser}
use seo_crawler_mcp.Engine.Depths.{
  PageNode, Link, is_known, depth_of, Search, normal_seeds, seeded, new_depth,
  recompute_page_depths,
}
use seo_crawler_mcp.Engine.Depths.Walks.{Walk, from_seed, along}
use seo_crawler_mcp.Engine.Depths.Rounds.{IsSearched, seeded-IsSearched, round-IsSearched}
use seo_crawler_mcp.Engine.Depths.Ending.{work-seeded, search_ends}

-- With an empty queue every walk ends at a known page, no deeper than the walk is long.
walked :
    (pages : List PageNode) (seeds : List Bytes) (links : List Link) (lo : ℕ) (s : Search)
    → IsSearched pages seeds links lo s
    → s.queue ≡ []
    → {n : ℕ} {v : Bytes} → Walk pages seeds links n v
    → (is_known v s.depths ≡ true) × (depth_of v s.depths ≤ n)
unfolding bytes_mem
walked pages seeds links lo s inv empty (from_seed {u} among page) =
    let (known, zero_deep) = inv.seeds_known u among page in (known, omega (arith, zero_deep))
walked pages seeds links lo s inv empty (along {n} {u} {v} before linked page) =
    let (known, near) = walked pages seeds links lo s inv empty before in
    elim (inv.closed u v known linked page) [
      | inl waits ↦ absurd (nobody u (ap (bytes_mem u) (sym empty) ∙ waits))
      | inr (there, next) ↦ (there, omega (arith, near, next))
    ]
  where
    nobody : (w : Bytes) → ¬ (bytes_mem w [] ≡ true)
    nobody w h = cc h

-- The depth that a page has, or had before where no walk leads to it.
pub IsDepth : List PageNode → List Bytes → List Link → PageNode → ℕ → Type 0
IsDepth pages seeds links page d =
    (Walk pages seeds links d page.normalized_url
      × ((n : ℕ) → Walk pages seeds links n page.normalized_url → d ≤ n))
    ⊎ ((d ≡ page.depth) × ((n : ℕ) → ¬ Walk pages seeds links n page.normalized_url))

shortest :
    (pages : List PageNode) (seeds : List Bytes) (links : List Link) (lo : ℕ) (s : Search)
    (page : PageNode)
    → IsSearched pages seeds links lo s
    → s.queue ≡ []
    → IsDepth pages seeds links page (new_depth s.depths page)
unfolding IsDepth new_depth
shortest pages seeds links lo s page inv empty =
    let u = page.normalized_url in
    elim (Bool-cases (is_known u s.depths)) [
      | inl known ↦
          let same : new_depth s.depths page ≡ depth_of u s.depths = ground (arith, known) in
          subst (IsDepth pages seeds links page) (sym same)
            (inl (inv.sound u known, λ n walk. (walked pages seeds links lo s inv empty walk).1))
      | inr unknown ↦
          let same : new_depth s.depths page ≡ page.depth = ground (arith, unknown) in
          subst (IsDepth pages seeds links page) (sym same) (
            inr (
              refl,
              λ n walk. absurd (cc ((walked pages seeds links lo s inv empty walk).0, unknown)),
            ))
    ]

-- With fuel for as many rounds as there are pages, recomputePageDepths ends and keeps the pages, each
-- with a depth that is the length of a walk along internal links from a seed to it and of no longer
-- one than any other, or the one that it had if there is no walk.
pub recompute_page_depths-IsDepth :
    (fuel : ℕ) (pages : List PageNode) (parse : Parser) (seeds : List Bytes) (links : List Link)
    → length pages ≤ fuel
    → (depth : PageNode → ℕ) × (recompute_page_depths pages fuel parse seeds links
        ≡ some (map {A = PageNode} (λ p. record p { depth = depth p }) pages))
      × ((page : PageNode) → IsDepth pages (normal_seeds parse seeds) links page (depth page))
unfolding recompute_page_depths
recompute_page_depths-IsDepth fuel pages parse seeds links enough =
    let us = normal_seeds parse seeds in
    let (t, done, empty, (lo, inv)) =
      search_ends pages links (λ s. (lo : ℕ) × IsSearched pages us links lo s)
        (λ s u rest head (lo, inv).
          (depth_of u s.depths, round-IsSearched pages us links lo s u rest head inv))
        fuel (seeded pages us) (omega (arith, work-seeded pages us, enough))
        (0, seeded-IsSearched pages us links) in
    (new_depth t.depths, ground (arith, done), λ page. shortest pages us links lo t page inv empty)
