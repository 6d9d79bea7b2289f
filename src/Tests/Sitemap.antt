-- ===== src/Tests/Sitemap.antt =====
-- A run of the traversal of internal/sitemap on an index that names itself, and its theorem there.
use seo_crawler_mcp.Prelude.{
  IsOnce, ◌≤◌, false, Option, none, some, [], ◌∷◌, Bytes, codes, bytes_eq, bytes_mem, if◌then◌else◌,
  length, map, ◌≡◌, refl, arith,
}
use seo_crawler_mcp.Sitemap.{
  max_sitemap_fetches, Entry, Xml, Client, Traversal, SitemapError, parse_xml, parse_index,
  with_source, skip_or_end, read_entries, follow_index, read_parsed, read_sitemap, counted, arrived,
  answered, visit, take_from, round, started, run_rounds, fetch_and_parse,
}
use seo_crawler_mcp.Sitemap.Bounds.{fetch_and_parse-IsBounded}

abbrev entry : Bytes → Entry
entry loc = record { loc = loc; lastmod = []; changefreq = []; priority = []; source_url = [] }

-- The body I is an index of itself and of two sitemaps, one of which has no file; A has two entries.
abbrev xml : Xml
xml = record {
  url_set = λ body.
      if bytes_eq body (codes "A")
      then some (codes "urlset", entry (codes "p") ∷ entry (codes "q") ∷ [])
      else none;
  sitemap_index = λ body.
      if bytes_eq body (codes "I")
      then some (codes "sitemapindex", codes "i" ∷ codes "x" ∷ codes "a" ∷ [])
      else none;
}

abbrev client : Client
client = record {
  fetch = λ asked url.
      if bytes_eq url (codes "i")
      then some (codes "I", [])
      else if bytes_eq url (codes "a")
      then some (codes "A", [])
      else none;
  is_done = λ asked. false;
}

one_entry :
    fetch_and_parse xml client 1 (codes "i") 10
    ≡ some (
      record {
        entries = with_source (codes "a") (entry (codes "p")) ∷ [];
        visited = codes "a" ∷ codes "x" ∷ codes "i" ∷ [];
        queue = [];
        sitemap_count = 2;
        requests = codes "a" ∷ codes "x" ∷ codes "i" ∷ [];
      },
      none,
    )
unfolding fetch_and_parse started run_rounds round take_from visit answered arrived counted
    read_sitemap read_parsed follow_index read_entries skip_or_end parse_xml parse_index with_source
    bytes_eq bytes_mem map
one_entry = refl

fetch_and_parse-IsBounded_example :
    (end : Traversal) × (error : Option SitemapError) × (fetch_and_parse xml client 1
        (codes "i")
        1001002
      ≡ some (end, error))
    × (length end.requests ≤ max_sitemap_fetches)
    × IsOnce end.requests
    × (end.sitemap_count ≤ length end.requests)
    × (length end.entries ≤ 1)
fetch_and_parse-IsBounded_example =
    fetch_and_parse-IsBounded xml client 1 (codes "i") 1001002 (omega arith)
