-- ===== src/Tests/Frontier.antt =====
-- Runs of internal/frontier on a heap that is a list, and its theorem at an input.
use seo_crawler_mcp.Prelude.{ℕ, true, some, List, [], ◌∷◌, codes, ◌≡◌, refl}
use seo_crawler_mcp.Frontier.{Item, less, is_seen, new, push, pop, len, peek, contains}
use seo_crawler_mcp.Frontier.Once.{
  Op, pushes, pops, has_url, is_push_of, with_popped, run, times_held, run_once,
}
use seo_crawler_mcp.Frontier.Smallest.{beside, extract, smallest_first}

queueing_urls : Unit {0}
unfolding less is_seen new push pop len peek contains has_url is_push_of with_popped run times_held
    beside extract smallest_first
queueing_urls = tt

abbrev at : ℕ → ℕ → Item
at id depth = record { url_id = id; normalized_url = codes "u"; host = codes "h"; depth = depth }

abbrev ops : List Op
ops = pushes (at 1 2) ∷ pushes (at 2 1) ∷ pushes (at 1 0) ∷ pops ∷ pushes (at 2 0) ∷ []

-- The nearer URL comes out first, and the second push of each is ignored.
frontier_runs :
    ((run smallest_first ops [] (new smallest_first)).0 ≡ at 2 1 ∷ [])
    × (peek smallest_first (run smallest_first ops [] (new smallest_first)).1 ≡ some (at 1 2))
    × (len smallest_first (run smallest_first ops [] (new smallest_first)).1 ≡ 1)
    × (contains smallest_first 2 (run smallest_first ops [] (new smallest_first)).1 ≡ true)
unfolding queueing_urls
frontier_runs = (refl, refl, refl, refl)

run_once_example :
    times_held smallest_first 2
      (run smallest_first ops [] (new smallest_first)).0
      (run smallest_first ops [] (new smallest_first)).1
    ≡ 1
unfolding is_push_of
run_once_example = run_once smallest_first ops 2
