-- ===== src/Tests/AgentReadiness.antt =====
-- Runs of internal/agentreadiness on small inputs, and its theorem at one.
use seo_crawler_mcp.Prelude.{
  false, some, List, [], ◌∷◌, Bytes, codes, bytes_eq, bytes_mem, has_prefix, index_byte, to_lower,
  to_lower_byte, is_space, trim_left, trim_right, trim_space, ◌≡◌, refl,
}
use seo_crawler_mcp.Prelude.Split.{split, cons_head}
use seo_crawler_mcp.UrlUtil.Normalize.{Parser}
use seo_crawler_mcp.Crawl.{flush, fields_from, fields}
use seo_crawler_mcp.AgentReadiness.{cut_at}
use seo_crawler_mcp.AgentReadiness.Links.{
  split_from, split_header_list, rels_of_param, rels_of_params, link_of, links_of_parts,
  parse_link_header,
}
use seo_crawler_mcp.AgentReadiness.Robots.{
  without_comment, signals_of_items, signals_of_line, signals_of_lines, parse_content_signals,
}
use seo_crawler_mcp.AgentReadiness.Homepages.{homepage_of, homepages_from, unique_homepages}

-- A comma in quotes does not end a part.
one_link :
    parse_link_header (codes "</c>; title=\"a,b\"; rel=\"API-catalog x\", none" ∷ [])
    ≡ record { uri = codes "/c"; rels = codes "api-catalog" ∷ codes "x" ∷ [] } ∷ []
unfolding parse_link_header split_header_list split_from links_of_parts link_of rels_of_params
    rels_of_param cut_at fields fields_from flush split cons_head to_lower to_lower_byte trim_space
    trim_left trim_right is_space has_prefix index_byte bytes_eq
one_link = refl

two_signals :
    parse_content_signals (codes "User-agent: *\nContent-signal: Search=yes, ai-train = no # x")
    ≡ record { key = codes "search"; value = codes "yes" }
      ∷ record { key = codes "ai-train"; value = codes "no" }
      ∷ []
unfolding parse_content_signals signals_of_lines signals_of_line signals_of_items without_comment
    cut_at split cons_head to_lower to_lower_byte trim_space trim_left trim_right is_space
    index_byte bytes_eq
two_signals = refl

-- Every text is the host of an http URL.
abbrev parse : Parser
parse raw = some (record {
  scheme = codes "http";
  host = raw;
  hostname = raw;
  port = [];
  raw_path = [];
  path = [];
  escaped_path = [];
  raw_query = [];
  has_user = false;
})

abbrev seeds : List Bytes
seeds = codes "a" ∷ codes "b" ∷ codes "A" ∷ []

two_homepages : unique_homepages parse seeds ≡ codes "http://a/" ∷ codes "http://b/" ∷ []
unfolding unique_homepages homepages_from homepage_of bytes_mem bytes_eq to_lower to_lower_byte
two_homepages = refl
