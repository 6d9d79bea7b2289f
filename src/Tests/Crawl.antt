-- ===== src/Tests/Crawl.antt =====
-- A page and its edges (internal/crawl/discovery.go), and the theorems at it.
use seo_crawler_mcp.Prelude.{
  true, false, Option, none, some, [], ◌∷◌, Bytes, codes, has_prefix, bytes_eq, bytes_mem, to_lower,
  to_lower_byte, index_byte, is_space, if◌then◌else◌, All, Any, here, ◌≡◌, refl,
}
use seo_crawler_mcp.Prelude.Split.{join}
use seo_crawler_mcp.UrlUtil.Percent.{
  is_unreserved, hex_val, decode_pair, encode_byte, write_triplet, normalize_percent_encoding,
}
use seo_crawler_mcp.UrlUtil.Normalize.{
  Url, Parser, is_control, sanitize_control_chars, dropped_schemes, scheme_window,
  is_dropped_scheme, default_port, is_http, host_with_port, path_source, normalize_query,
  query_suffix, normalize_parsed, dropped_prefix, normalize,
}
use seo_crawler_mcp.UrlUtil.Scope.{exact_host, ScopeChecker, host_in_scope, is_in_scope}
use seo_crawler_mcp.Crawl.{
  DiscoveredLink, ParseResult, flush, fields_from, fields, json_of, parse_rel_flags, source_kind_of,
  has_fragment, normal_or_empty, edge_to, build_edge, add_edge, other_edges, of_link, link_edge,
  link_edges, if_given, build_edges,
}
use seo_crawler_mcp.Crawl.Edges.{IsEdge, build_edges-All}
use seo_crawler_mcp.Crawl.Links.{edge_of, build_edges-Any}

crawling : Unit {0}
unfolding is_unreserved hex_val decode_pair encode_byte write_triplet normalize_percent_encoding
    has_prefix bytes_mem to_lower to_lower_byte bytes_eq index_byte is_space is_control
    sanitize_control_chars dropped_schemes scheme_window is_dropped_scheme default_port is_http
    host_with_port path_source normalize_query query_suffix normalize_parsed dropped_prefix
    normalize host_in_scope is_in_scope join flush fields_from fields json_of parse_rel_flags
    source_kind_of has_fragment normal_or_empty edge_to build_edge add_edge other_edges of_link
    link_edge link_edges if_given build_edges
crawling = tt

abbrev at_path : Bytes → Url
at_path path = record {
  scheme = codes "http";
  host = codes "h";
  hostname = codes "h";
  port = [];
  raw_path = [];
  path = path;
  escaped_path = path;
  raw_query = [];
  has_user = false;
}

abbrev parser : Parser
parser raw = some (at_path (if bytes_eq raw (codes "http://h/b") then codes "/b" else codes "/a"))

abbrev no_fragment : Bytes → Option Bytes
no_fragment raw = some []

abbrev no_domain : Bytes → Option Bytes
no_domain host = none

abbrev scope : ScopeChecker
scope = record { mode = exact_host; seed_host = codes "h"; seed_domain = []; allowed_hosts = [] }

abbrev link_to : Bytes → DiscoveredLink
link_to url = record {
  url = url;
  anchor_text = codes "t";
  rel = codes "UGC me nofollow";
  target = [];
}

abbrev page : ParseResult
page = record {
  links =
      link_to (codes "http://h/b") ∷ link_to (codes "http://h/a") ∷ link_to (codes "tel:1") ∷ [];
  canonical_resolved = [];
  hreflangs = [];
  rel_next = none;
  rel_prev = none;
  images = [];
}

-- The page's link to itself and the one to a telephone make no edges.
build_edges_runs :
    build_edges parser no_fragment no_domain 1 (codes "browser") scope (codes "http://h/a") page
    ≡ record {
      source_url_id = 1;
      declared_target_url = codes "http://h/b";
      normalized_target_url = codes "http://h/b";
      source_kind = codes "rendered_dom";
      relation_type = codes "link";
      rel_flags_json = codes "[\"ugc\",\"nofollow\"]";
      discovery_mode = codes "browser";
      anchor_text = codes "t";
      is_internal = true;
      target_attr = [];
    }
      ∷ []
unfolding crawling
build_edges_runs = refl

build_edges-All_example :
    All
      (IsEdge parser no_fragment no_domain 1
        (codes "browser")
        scope
        (normal_or_empty parser no_fragment no_domain (codes "http://h/a"))
        page)
      (build_edges parser no_fragment no_domain 1 (codes "browser") scope (codes "http://h/a") page)
build_edges-All_example =
    build_edges-All parser no_fragment no_domain 1 (codes "browser") scope (codes "http://h/a") page

build_edges-Any_example :
    Any
      (λ e.
        e
        ≡ edge_of parser no_fragment no_domain 1
            (codes "browser")
            scope
            (link_to (codes "http://h/b"))
            (codes "http://h/b"))
      (build_edges parser no_fragment no_domain 1 (codes "browser") scope (codes "http://h/a") page)
unfolding crawling
build_edges-Any_example =
    build_edges-Any parser no_fragment no_domain 1 (codes "browser") scope (codes "http://h/a") page
      (link_to (codes "http://h/b")) (codes "http://h/b") (here refl) refl refl refl refl refl
