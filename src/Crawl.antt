-- ===== src/Crawl.antt =====
-- The edges that a page's links make (internal/crawl/discovery.go), out of what the parser of HTML has
-- found. Arguments are `net/url`'s parser, the fragment of a URL that it parses, and the list of public
-- suffixes.
pub mod Places
pub mod Edges
pub mod Links
use seo_crawler_mcp.Prelude.{
  is_empty, ℕ, Bool, true, false, not, ◌||◌, Option, none, some, List, [], ◌∷◌, ◌++◌, Bytes, codes,
  bytes_eq, bytes_mem, if◌then◌else◌, map, keep, is_space, to_lower,
}
use seo_crawler_mcp.Prelude.Result.{Result, ok, err}
use seo_crawler_mcp.Prelude.Split.{join}
use seo_crawler_mcp.UrlUtil.Normalize.{Parser, NormalizeError, normalize, is_dropped_scheme}
use seo_crawler_mcp.UrlUtil.Scope.{ScopeChecker, is_in_scope}

pub record DiscoveredLink : Type 0 where
  pub url : Bytes
  pub anchor_text : Bytes
  pub rel : Bytes
  pub target : Bytes

-- The fields of the result that make edges; of an alternate page and of an image their URL, and the
-- resolved URL of a link to the next and the previous page.
pub record ParseResult : Type 0 where
  pub links : List DiscoveredLink
  pub canonical_resolved : Bytes
  pub hreflangs : List Bytes
  pub rel_next : Option Bytes
  pub rel_prev : Option Bytes
  pub images : List Bytes

pub record DiscoveredEdge : Type 0 where
  pub source_url_id : ℕ
  pub declared_target_url : Bytes
  pub normalized_target_url : Bytes
  pub source_kind : Bytes
  pub relation_type : Bytes
  pub rel_flags_json : Bytes
  pub discovery_mode : Bytes
  pub anchor_text : Bytes
  pub is_internal : Bool
  pub target_attr : Bytes

-- strings.Fields
unfoldable pub flush : Bytes → List Bytes → List Bytes
flush word words = if is_empty word then words else word ∷ words

unfoldable pub fields_from : Bytes → Bytes → List Bytes
fields_from word [] = flush word []
fields_from word (c ∷ s) =
    let next = fields_from [] s in
    let longer = fields_from (word ++ c ∷ []) s in if is_space c then flush word next else longer

unfoldable pub fields : Bytes → List Bytes
fields s = fields_from [] s

abbrev pub known_flags : List Bytes
known_flags =
    codes "nofollow" ∷ codes "ugc" ∷ codes "sponsored" ∷ codes "noopener" ∷ codes "noreferrer" ∷ []

-- The JSON of words without a character to escape.
unfoldable pub json_of : List Bytes → Bytes
json_of words = b'[' ∷ join b',' (map (λ w. b'"' ∷ w ++ b'"' ∷ []) words) ++ b']' ∷ []

unfoldable pub parse_rel_flags : Bytes → Bytes
parse_rel_flags rel =
    if is_empty rel
    then codes "[]"
    else json_of (keep (λ p. bytes_mem p known_flags) (fields (to_lower rel)))

unfoldable pub source_kind_of : Bytes → Bytes
source_kind_of mode = if bytes_eq mode (codes "browser") then codes "rendered_dom" else codes "html"

module _ (parse : Parser) (fragment : Bytes → Option Bytes) (etld : Bytes → Option Bytes) where
  unfoldable pub has_fragment : Bytes → Bool
  has_fragment raw = elim (fragment raw) [ none ↦ false | some f ↦ not (is_empty f) ]

  -- The page's own URL, or the empty text where it has no normal form.
  unfoldable pub normal_or_empty : Bytes → Bytes
  normal_or_empty raw = elim (normalize parse raw) [ err _ ↦ [] | ok normalized ↦ normalized ]

  module _ (source_url_id : ℕ) (mode : Bytes) (scope : ScopeChecker) where
    unfoldable pub edge_to : Bytes → Bytes → Result NormalizeError Bytes → Option DiscoveredEdge
    edge_to raw relation (err _) = none
    edge_to raw relation (ok normalized) = some (record {
      source_url_id = source_url_id;
      declared_target_url = raw;
      normalized_target_url = normalized;
      source_kind = source_kind_of mode;
      relation_type = relation;
      rel_flags_json = codes "[]";
      discovery_mode = mode;
      anchor_text = [];
      is_internal = is_in_scope etld parse scope normalized;
      target_attr = [];
    })

    unfoldable pub build_edge : Bytes → Bytes → Option DiscoveredEdge
    build_edge raw relation =
        if is_empty raw || is_dropped_scheme raw
        then none
        else edge_to raw relation (normalize parse raw)

    unfoldable pub add_edge : Option DiscoveredEdge → List DiscoveredEdge → List DiscoveredEdge
    add_edge none edges = edges
    add_edge (some e) edges = e ∷ edges

    unfoldable pub other_edges : Bytes → List Bytes → List DiscoveredEdge
    other_edges relation [] = []
    other_edges relation (raw ∷ raws) =
        add_edge (build_edge raw relation) (other_edges relation raws)

    -- An edge of a link that leads elsewhere, with what the link says.
    unfoldable pub of_link : Bytes → DiscoveredLink → Option DiscoveredEdge → Option DiscoveredEdge
    of_link source link none = none
    of_link source link (some e) =
        if bytes_eq e.normalized_target_url source
        then none
        else some (record e {
          anchor_text = link.anchor_text;
          rel_flags_json = parse_rel_flags link.rel;
          target_attr = link.target;
        })

    unfoldable pub link_edge : Bytes → DiscoveredLink → Option DiscoveredEdge
    link_edge source link =
        if has_fragment link.url
        then none
        else of_link source link (build_edge link.url (codes "link"))

    unfoldable pub link_edges : Bytes → List DiscoveredLink → List DiscoveredEdge
    link_edges source [] = []
    link_edges source (link ∷ links) = add_edge (link_edge source link) (link_edges source links)

    unfoldable pub if_given : Option Bytes → List Bytes
    if_given none = []
    if_given (some raw) = if is_empty raw then [] else raw ∷ []

    unfoldable pub build_edges : Bytes → ParseResult → List DiscoveredEdge
    build_edges page_url result =
        link_edges (normal_or_empty page_url) result.links
        ++ other_edges (codes "canonical") (if_given (some result.canonical_resolved))
        ++ other_edges (codes "hreflang") result.hreflangs
        ++ other_edges (codes "pagination_next") (if_given result.rel_next)
        ++ other_edges (codes "pagination_prev") (if_given result.rel_prev)
        ++ other_edges (codes "asset_ref") result.images
