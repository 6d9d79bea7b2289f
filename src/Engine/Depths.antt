-- ===== src/Engine/Depths.antt =====
-- recomputePageDepths in internal/engine/engine.go: the depth of each page is the length of the
-- shortest path of internal links from a seed. The rows of the two queries are arguments.
pub mod Walks
pub mod Offer
pub mod Rounds
pub mod Ending
pub mod Shortest
use seo_crawler_mcp.Prelude.{
  ℕ, zero, suc, ◌+◌, Bool, true, false, not, ◌&&◌, ◌||◌, Option, none, some, List, [], ◌∷◌, ◌++◌,
  Bytes, bytes_eq, if◌then◌else◌, map, keep, any,
}
use seo_crawler_mcp.Prelude.Result.{ok, err}
use seo_crawler_mcp.UrlUtil.Normalize.{Parser, normalize}

pub record PageNode : Type 0 where
  pub normalized_url : Bytes
  pub url_id : ℕ
  pub depth : ℕ

-- An internal link, by the normal forms of both URLs.
pub record Link : Type 0 where
  pub source_url : Bytes
  pub target_url : Bytes

-- The map of depths that are known, the last entry first.
abbrev pub Depths : Type 0
Depths = List (Bytes × ℕ)

unfoldable pub is_known : Bytes → Depths → Bool
is_known u [] = false
is_known u ((v, d) ∷ ds) = bytes_eq v u || is_known u ds

-- A missing key reads as 0.
unfoldable pub depth_of : Bytes → Depths → ℕ
depth_of u [] = 0
depth_of u ((v, d) ∷ ds) = let later = depth_of u ds in if bytes_eq v u then d else later

unfoldable pub is_page : Bytes → List PageNode → Bool
is_page u pages = any (λ p. bytes_eq p.normalized_url u) pages

unfoldable pub adjacent : Bytes → List Link → List Bytes
adjacent u [] = []
adjacent u (l ∷ ls) =
    let rest = adjacent u ls in if bytes_eq l.source_url u then l.target_url ∷ rest else rest

pub record Search : Type 0 where
  pub depths : Depths
  pub queue : List Bytes

-- The seeds that have a normal form, in it.
unfoldable pub normal_seeds : Parser → List Bytes → List Bytes
normal_seeds parse [] = []
normal_seeds parse (seed ∷ seeds) = elim (normalize parse seed) [
  | err _ ↦ normal_seeds parse seeds
  | ok u ↦ u ∷ normal_seeds parse seeds
]

-- The depth that is written for a page.
unfoldable pub new_depth : Depths → PageNode → ℕ
new_depth depths page =
    if is_known page.normalized_url depths then depth_of page.normalized_url depths else page.depth

module _ (pages : List PageNode) where
  -- A page that has no depth yet gets one and waits.
  unfoldable pub offer : ℕ → Search → Bytes → Search
  offer d s next =
      if is_page next pages && not (is_known next s.depths)
      then record { depths = (next, d) ∷ s.depths; queue = s.queue ++ next ∷ [] }
      else s

  unfoldable pub offer_all : ℕ → Search → List Bytes → Search
  offer_all d s [] = s
  offer_all d s (next ∷ rest) = offer_all d (offer d s next) rest

  unfoldable pub seeded : List Bytes → Search
  seeded seeds = offer_all 0 (record { depths = []; queue = [] }) seeds

  module _ (links : List Link) where
    unfoldable pub round : Bytes → List Bytes → Depths → Search
    round current rest depths =
        offer_all (depth_of current depths + 1) (record { depths = depths; queue = rest })
          (adjacent current links)

    -- The loop on fuel: `none` where it runs out.
    unfoldable pub search : ℕ → Search → Option Depths
    search zero s = elim s.queue [ [] ↦ some s.depths | _ ∷ _ ↦ none ]
    search (suc fuel) s = elim s.queue [
      | [] ↦ some s.depths
      | current ∷ rest ↦ search fuel (round current rest s.depths)
    ]

  unfoldable pub recompute_page_depths :
      ℕ → Parser → List Bytes → List Link → Option (List PageNode)
  recompute_page_depths fuel parse seeds links =
      elim (search links fuel (seeded (normal_seeds parse seeds))) [
        | none ↦ none
        | some depths ↦
            some (map {A = PageNode} (λ p. record p { depth = new_depth depths p }) pages)
      ]
