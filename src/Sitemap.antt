-- ===== src/Sitemap.antt =====
-- The traversal of sitemaps in internal/sitemap/parser.go. What a request gives, by all the requests
-- before it, whether the context is done by then, and encoding/xml are arguments.
pub mod Rounds
pub mod Bounds
use seo_crawler_mcp.Prelude.{
  ℕ, zero, suc, ◌+◌, ◌-◌, Bool, true, false, not, Option, none, some, List, [], ◌∷◌, ◌++◌, Bytes,
  codes, is_empty, bytes_eq, bytes_mem, if◌then◌else◌, ltb, leb, length, take, map,
}

abbrev pub max_sitemap_fetches : ℕ
max_sitemap_fetches = 1000

-- The priority is a number that nothing here reads.
pub record Entry : Type 0 where
  pub loc : Bytes
  pub lastmod : Bytes
  pub changefreq : Bytes
  pub priority : Bytes
  pub source_url : Bytes

-- What xml.Unmarshal finds in each of the two structs: the name of the root, and the children.
pub record Xml : Type 0 where
  pub url_set : Bytes → Option (Bytes × List Entry)
  pub sitemap_index : Bytes → Option (Bytes × List Bytes)

unfoldable pub parse_xml : Xml → Bytes → Option (List Entry)
parse_xml xml body = elim (xml.url_set body) [
  | none ↦ none
  | some (root, entries) ↦ if not (bytes_eq root (codes "urlset")) then none else some entries
]

unfoldable pub parse_index : Xml → Bytes → Option (List Bytes)
parse_index xml body = elim (xml.sitemap_index body) [
  | none ↦ none
  | some (root, urls) ↦ if not (bytes_eq root (codes "sitemapindex")) then none else some urls
]

pub data SitemapError : Type 0 where
  context_done too_many_fetched too_many_queued unreadable malformed : SitemapError

-- The variables of the loop, and the URLs that were requested, the last first.
pub record Traversal : Type 0 where
  pub entries : List Entry
  pub visited : List Bytes
  pub queue : List Bytes
  pub sitemap_count : ℕ
  pub requests : List Bytes

pub data Round : Type 0 where
  next : Traversal → Round
  finished : Traversal → Option SitemapError → Round

-- A request gives a body and the URL after redirects, or fails.
pub record Client : Type 0 where
  pub fetch : List Bytes → Bytes → Option (Bytes × Bytes)
  pub is_done : List Bytes → Bool

unfoldable pub with_source : Bytes → Entry → Entry
with_source url e = record e { source_url = url }

module _ (xml : Xml) (client : Client) (max_entries : ℕ) (sitemap_url : Bytes) where
  -- A failure ends the traversal at the URL that was asked for, and is skipped at the others.
  unfoldable pub skip_or_end : Bytes → SitemapError → Traversal → Round
  skip_or_end current error t =
      if bytes_eq current sitemap_url then finished t (some error) else next t

  unfoldable pub read_entries : Bytes → Bytes → Option (List Entry) → Traversal → Round
  read_entries current final none t = skip_or_end current malformed t
  read_entries current final (some parsed) t = next (record t {
    entries = t.entries ++ map (with_source final) (take (max_entries - length t.entries) parsed);
  })

  -- Too many URLs that were visited or wait end the traversal.
  unfoldable pub follow_index : List Bytes → Traversal → Round
  follow_index urls t =
      if ltb max_sitemap_fetches (length t.visited + length t.queue + length urls)
      then finished t (some too_many_queued)
      else next (record t { queue = t.queue ++ urls })

  -- An index comes first, if it has children.
  unfoldable pub read_parsed :
      Bytes → Bytes → Option (List Bytes) → Option (List Entry) → Traversal → Round
  read_parsed current final none entries t = read_entries current final entries t
  read_parsed current final (some []) entries t = read_entries current final entries t
  read_parsed current final (some (url ∷ urls)) entries t = follow_index (url ∷ urls) t

  unfoldable pub read_sitemap : Bytes → Bytes → Bytes → Traversal → Round
  read_sitemap current final body t =
      read_parsed current final (parse_index xml body) (parse_xml xml body) t

  unfoldable pub counted : Traversal → Traversal
  counted t = record t { sitemap_count = suc t.sitemap_count }

  unfoldable pub arrived : Bytes → Bytes → Bytes → Traversal → Round
  arrived current final body t =
      if bytes_eq final current
      then read_sitemap current final body (counted t)
      else if bytes_mem final t.visited
      then next t
      else read_sitemap current final body (counted (record t { visited = final ∷ t.visited }))

  unfoldable pub answered : Bytes → Option (Bytes × Bytes) → Traversal → Round
  answered current none t = skip_or_end current unreadable t
  answered current (some (body, final)) t =
      arrived current (if is_empty final then current else final) body t

  unfoldable pub visit : Bytes → Traversal → Round
  visit current t =
      let asked = record t { visited = current ∷ t.visited; requests = current ∷ t.requests } in
      answered current (client.fetch t.requests current) asked

  unfoldable pub take_from : List Bytes → Traversal → Round
  take_from [] t = finished t none
  take_from (current ∷ rest) t =
      if leb max_entries (length t.entries)
      then finished t none
      else if client.is_done t.requests
      then finished t (some context_done)
      else if leb max_sitemap_fetches t.sitemap_count
      then finished t (some too_many_fetched)
      else if bytes_mem current t.visited
      then next (record t { queue = rest })
      else visit current (record t { queue = rest })

  unfoldable pub round : Traversal → Round
  round t = take_from t.queue t

  unfoldable pub started : Traversal
  started = record {
    entries = [];
    visited = [];
    queue = sitemap_url ∷ [];
    sitemap_count = 0;
    requests = [];
  }

  -- The loop on fuel: `none` where it runs out.
  unfoldable pub run_rounds : ℕ → Traversal → Option (Traversal × Option SitemapError)
  run_rounds zero t = none
  run_rounds (suc fuel) t = elim (round t) [
    | finished s error ↦ some (s, error)
    | next s ↦ run_rounds fuel s
  ]

  -- The entries, the count and the error of the result are those of the traversal at its end.
  unfoldable pub fetch_and_parse : ℕ → Option (Traversal × Option SitemapError)
  fetch_and_parse fuel = run_rounds fuel started
