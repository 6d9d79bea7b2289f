-- ===== src/Crawl/Links.antt =====
-- A link that leads elsewhere has its edge.
use seo_crawler_mcp.Prelude.{
  is_empty, ℕ, false, Option, none, some, List, [], ◌∷◌, ◌++◌, Bytes, codes, bytes_eq, Any, here,
  there, ◌≡◌, refl, sym, ap, ◌∙◌, subst, arith,
}
use seo_crawler_mcp.Prelude.Result.{ok}
use seo_crawler_mcp.UrlUtil.Normalize.{Parser, normalize, is_dropped_scheme}
use seo_crawler_mcp.UrlUtil.Scope.{ScopeChecker, is_in_scope}
use seo_crawler_mcp.Crawl.{
  DiscoveredLink, ParseResult, DiscoveredEdge, has_fragment, normal_or_empty, edge_to, build_edge,
  add_edge, of_link, link_edge, link_edges, build_edges, source_kind_of, parse_rel_flags,
}

Any-append {ℓ κ} : {A : Type ℓ} {P : A → Type κ} (xs ys : List A) → Any P xs → Any P (xs ++ ys)
Any-append [] ys found = elim found [ ]
Any-append (x ∷ xs) ys (here h) = here h
Any-append (x ∷ xs) ys (there later) = there (Any-append xs ys later)

module _ (parse : Parser) (fragment etld : Bytes → Option Bytes) (source : ℕ) (mode : Bytes)
    (scope : ScopeChecker) where
  -- The edge of a link with a target.
  abbrev pub edge_of : DiscoveredLink → Bytes → DiscoveredEdge
  edge_of link out = record {
    source_url_id = source;
    declared_target_url = link.url;
    normalized_target_url = out;
    source_kind = source_kind_of mode;
    relation_type = codes "link";
    rel_flags_json = parse_rel_flags link.rel;
    discovery_mode = mode;
    anchor_text = link.anchor_text;
    is_internal = is_in_scope etld parse scope out;
    target_attr = link.target;
  }

  kept_edge :
      {P : DiscoveredEdge → Type 0} (o : Option DiscoveredEdge) (edges : List DiscoveredEdge)
      → Any P edges
      → Any P (add_edge parse fragment etld source mode scope o edges)
  unfolding add_edge
  kept_edge none edges found = found
  kept_edge (some e) edges found = there found

  module _ (page : Bytes) (link : DiscoveredLink) (out : Bytes) where
    link_edge_made :
        has_fragment parse fragment etld link.url ≡ false
        → is_empty link.url ≡ false
        → is_dropped_scheme link.url ≡ false
        → normalize parse link.url ≡ ok out
        → bytes_eq out page ≡ false
        → link_edge parse fragment etld source mode scope page link ≡ some (edge_of link out)
    unfolding link_edge of_link build_edge edge_to
    link_edge_made whole given kept normal away = ground (arith, whole, given, kept, normal, away)

    link_edges-Any :
        (links : List DiscoveredLink)
        → link_edge parse fragment etld source mode scope page link ≡ some (edge_of link out)
        → Any (λ l. l ≡ link) links
        → Any
            (λ e. e ≡ edge_of link out)
            (link_edges parse fragment etld source mode scope page links)
    unfolding link_edges add_edge
    link_edges-Any [] made among = elim among [ ]
    link_edges-Any (l ∷ links) made (here same) =
        let this = ap (link_edge parse fragment etld source mode scope page) same ∙ made in
        subst
          (λ o.
            Any (λ e. e ≡ edge_of link out)
              (add_edge parse fragment etld source mode scope o
                (link_edges parse fragment etld source mode scope page links)))
          (sym this) (here refl)
    link_edges-Any (l ∷ links) made (there later) =
        kept_edge (link_edge parse fragment etld source mode scope page l) _
          (link_edges-Any links made later)

  -- Every link of a page that has a URL without a fragment and of no dropped scheme, whose normal form
  -- is not the page's own, has its edge, with its text, its flags and its target.
  pub build_edges-Any :
      (page_url : Bytes) (result : ParseResult) (link : DiscoveredLink) (out : Bytes)
      → Any (λ l. l ≡ link) result.links
      → has_fragment parse fragment etld link.url ≡ false
      → is_empty link.url ≡ false
      → is_dropped_scheme link.url ≡ false
      → normalize parse link.url ≡ ok out
      → bytes_eq out (normal_or_empty parse fragment etld page_url) ≡ false
      → Any
          (λ e. e ≡ edge_of link out)
          (build_edges parse fragment etld source mode scope page_url result)
  unfolding build_edges
  build_edges-Any page_url result link out among whole given kept normal away =
      let page = normal_or_empty parse fragment etld page_url in
      let made = link_edge_made page link out whole given kept normal away in
      Any-append _ _ (
        Any-append _ _ (
          Any-append _ _ (
            Any-append _ _
              (Any-append _ _ (link_edges-Any page link out result.links made among)))))
