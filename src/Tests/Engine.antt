-- ===== src/Tests/Engine.antt =====
-- Runs of internal/engine on small inputs, and its theorems at them.
use seo_crawler_mcp.Prelude.{
  ℕ, false, some, List, [], ◌∷◌, Bytes, codes, map, has_prefix, bytes_eq, bytes_mem, to_lower,
  to_lower_byte, index_byte, ltb, ◌≡◌, refl, arith,
}
use seo_crawler_mcp.UrlUtil.Percent.{
  is_unreserved, hex_val, decode_pair, encode_byte, write_triplet, normalize_percent_encoding,
}
use seo_crawler_mcp.UrlUtil.Normalize.{
  Url, Parser, is_control, sanitize_control_chars, dropped_schemes, scheme_window,
  is_dropped_scheme, default_port, is_http, host_with_port, path_source, normalize_query,
  query_suffix, normalize_parsed, dropped_prefix, normalize,
}
use seo_crawler_mcp.Engine.Depths.{
  PageNode, Link, is_known, depth_of, is_page, adjacent, offer, offer_all, normal_seeds, seeded,
  round, search, new_depth, recompute_page_depths,
}
use seo_crawler_mcp.Engine.Variants.{new_query_variants_tracker, bucket_of, with_query, observe}
use seo_crawler_mcp.Engine.Variants.Traps.{
  Found, one_if, same_url, queries_of, tracked, emits, issues_of, issues_of-queries_of,
}
use seo_crawler_mcp.Engine.Depths.Shortest.{IsDepth, recompute_page_depths-IsDepth}

measuring : Unit {0}
unfolding is_unreserved hex_val decode_pair encode_byte write_triplet normalize_percent_encoding
    has_prefix bytes_mem to_lower to_lower_byte bytes_eq index_byte is_control
    sanitize_control_chars dropped_schemes scheme_window is_dropped_scheme default_port is_http
    host_with_port path_source normalize_query query_suffix normalize_parsed dropped_prefix
    normalize is_known depth_of is_page adjacent offer offer_all normal_seeds seeded round search
    new_depth recompute_page_depths
measuring = tt

abbrev at_path : Bytes → Url
at_path path = record {
  scheme = codes "http";
  host = codes "h";
  hostname = codes "h";
  port = [];
  raw_path = [];
  path = path;
  escaped_path = path;
  raw_query = [];
  has_user = false;
}

abbrev parser : Parser
parser raw = some (at_path (codes "/a"))

abbrev page_at : Bytes → ℕ → PageNode
page_at url depth = record { normalized_url = url; url_id = 0; depth = depth }

abbrev pages : List PageNode
pages =
    page_at (codes "http://h/a") 9
    ∷ page_at (codes "b") 8
    ∷ page_at (codes "c") 7
    ∷ page_at (codes "d") 6
    ∷ []

abbrev link : Bytes → Bytes → Link
link source target = record { source_url = source; target_url = target }

-- From "a" to "c" by way of "b", and back; nothing leads to "d".
abbrev links : List Link
links =
    link (codes "http://h/a") (codes "b")
    ∷ link (codes "b") (codes "c")
    ∷ link (codes "c") (codes "b")
    ∷ []

depths_runs :
    recompute_page_depths pages 4 parser (codes "x" ∷ []) links
    ≡ some (
        page_at (codes "http://h/a") 0
        ∷ page_at (codes "b") 1
        ∷ page_at (codes "c") 2
        ∷ page_at (codes "d") 6
        ∷ [])
unfolding measuring
depths_runs = refl

recompute_page_depths-IsDepth_example :
    (depth : PageNode → ℕ) × (recompute_page_depths pages 4 parser (codes "x" ∷ []) links
      ≡ some (map {A = PageNode} (λ p. record p { depth = depth p }) pages))
    × ((page : PageNode)
        → IsDepth pages (normal_seeds parser (codes "x" ∷ [])) links page (depth page))
recompute_page_depths-IsDepth_example =
    recompute_page_depths-IsDepth 4 pages parser (codes "x" ∷ []) links (omega arith)

abbrev found : Bytes → Bytes → Found
found path query = record { path = path; query = query }

abbrev history : List Found
history =
    found (codes "/a") (codes "q=2")
    ∷ found (codes "/b") (codes "q=1")
    ∷ found (codes "/a") (codes "q=1")
    ∷ found (codes "/a") (codes "q=1")
    ∷ []

tracking : Unit {0}
unfolding bytes_eq bytes_mem new_query_variants_tracker bucket_of with_query observe same_url
    queries_of tracked emits issues_of
tracking = tt

variants_run :
    (issues_of 1 (codes "/a") history ≡ 1)
    × (issues_of 1 (codes "/b") history ≡ 0)
    × (issues_of 1 (codes "/a") (found (codes "/a") (codes "q=3") ∷ history) ≡ 1)
unfolding tracking
variants_run = (refl, refl, refl)

issues_of-queries_of_example :
    (issues_of 1 (codes "/a") history ≡ one_if (ltb 1 (queries_of (codes "/a") history)))
    × ((observe (codes "/a") (codes "q=3") 1 (tracked 1 history)).0.0
        ≡ queries_of (codes "/a") (found (codes "/a") (codes "q=3") ∷ history))
issues_of-queries_of_example =
    issues_of-queries_of 1 (codes "/a") (found (codes "/a") (codes "q=3")) history
