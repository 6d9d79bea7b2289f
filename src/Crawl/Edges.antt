-- ===== src/Crawl/Edges.antt =====
-- What the edges of a page say is so: where they lead, and which of the page's links each one is of.
use seo_crawler_mcp.Prelude.{
  is_empty, ℕ, true, false, ◌||◌, Option, none, some, List, [], ◌∷◌, Bytes, codes, bytes_eq,
  if◌then◌else◌, Bool-cases, All, Any, here, there, ◌≡◌, refl, sym, ap, ◌∙◌, subst, inl, inr, arith,
}
use seo_crawler_mcp.Prelude.Result.{Result, ok, err}
use seo_crawler_mcp.UrlUtil.Normalize.{Parser, NormalizeError, normalize, is_dropped_scheme}
use seo_crawler_mcp.UrlUtil.Scope.{ScopeChecker, is_in_scope}
use seo_crawler_mcp.Crawl.{
  DiscoveredLink, ParseResult, DiscoveredEdge, has_fragment, normal_or_empty, edge_to, build_edge,
  add_edge, other_edges, of_link, link_edge, link_edges, if_given, build_edges, parse_rel_flags,
}
use seo_crawler_mcp.Crawl.Places.{
  All-append, All-map, IsKind, source_kind_of-IsKind, IsPlain, IsAmong, IsOf, IsFrom, from_link,
  from_canonical, from_hreflang, from_next, from_prev, from_image, some_inj,
}

module _ (parse : Parser) (fragment etld : Bytes → Option Bytes) (source : ℕ) (mode : Bytes)
    (scope : ScopeChecker) where
  -- An edge that tells the truth about its source and its target.
  pub record IsTrue (e : DiscoveredEdge) : Type 0 where
    pub from_source : e.source_url_id ≡ source
    pub in_mode : e.discovery_mode ≡ mode
    pub kind : IsKind mode e.source_kind
    pub not_dropped : is_dropped_scheme e.declared_target_url ≡ false
    pub normal : normalize parse e.declared_target_url ≡ ok e.normalized_target_url
    pub internal : e.is_internal ≡ is_in_scope etld parse scope e.normalized_target_url

  -- An edge of a link leads to another URL than the page's, and names no place in it.
  abbrev pub LeadsAway : Bytes → DiscoveredEdge → Type 0
  LeadsAway page e =
      bytes_eq e.relation_type (codes "link") ≡ true
      → (bytes_eq e.normalized_target_url page ≡ false)
        × (has_fragment parse fragment etld e.declared_target_url ≡ false)

  abbrev pub IsEdge : Bytes → ParseResult → DiscoveredEdge → Type 0
  IsEdge page result e = IsTrue e × LeadsAway page e × IsFrom result e

  abbrev IsMade : Bytes → Bytes → Option DiscoveredEdge → Type 0
  IsMade raw relation none = Unit
  IsMade raw relation (some e) =
      IsTrue e × (e.declared_target_url ≡ raw) × (e.relation_type ≡ relation) × IsPlain e

  edge_to-IsMade :
      (raw relation : Bytes) (r : Result NormalizeError Bytes)
      → is_dropped_scheme raw ≡ false
      → normalize parse raw ≡ r
      → IsMade raw relation (edge_to parse fragment etld source mode scope raw relation r)
  unfolding edge_to
  edge_to-IsMade raw relation (err e) kept normal = tt
  edge_to-IsMade raw relation (ok out) kept normal = (
    record {
      from_source = refl;
      in_mode = refl;
      kind = source_kind_of-IsKind mode;
      not_dropped = kept;
      normal = normal;
      internal = refl;
    },
    refl,
    refl,
    (refl, refl, refl),
  )

  build_edge-IsMade :
      (raw relation : Bytes)
      → IsMade raw relation (build_edge parse fragment etld source mode scope raw relation)
  unfolding build_edge
  build_edge-IsMade raw relation = elim (Bool-cases (is_empty raw || is_dropped_scheme raw)) [
    | inl out ↦
        subst
          (λ b. IsMade raw relation (
            if b
            then none
            else edge_to parse fragment etld source mode scope raw relation (normalize parse raw)))
          (sym out) tt
    | inr kept ↦
        subst
          (λ b. IsMade raw relation (
            if b
            then none
            else edge_to parse fragment etld source mode scope raw relation (normalize parse raw)))
          (sym kept) (edge_to-IsMade raw relation (normalize parse raw) (ground (arith, kept)) refl)
  ]

  -- What holds of the edge, if there is one.
  abbrev IsGood : (DiscoveredEdge → Type 0) → Option DiscoveredEdge → Type 0
  IsGood P none = Unit
  IsGood P (some e) = P e

  add_edge-All :
      (P : DiscoveredEdge → Type 0) (o : Option DiscoveredEdge) (edges : List DiscoveredEdge)
      → IsGood P o
      → All P edges
      → All P (add_edge parse fragment etld source mode scope o edges)
  unfolding add_edge
  add_edge-All P none edges h hs = hs
  add_edge-All P (some e) edges h hs = (h, hs)

  -- An edge of one of these URLs, with this relation.
  abbrev IsOther : Bytes → List Bytes → DiscoveredEdge → Type 0
  IsOther relation raws e = IsTrue e × IsAmong raws e × (e.relation_type ≡ relation) × IsPlain e

  made-IsOther :
      (relation raw : Bytes) (raws : List Bytes) (o : Option DiscoveredEdge)
      → IsMade raw relation o
      → IsGood (IsOther relation (raw ∷ raws)) o
  made-IsOther relation raw raws none h = tt
  made-IsOther relation raw raws (some e) (told, declared, named, plain) =
      (told, here (sym declared), named, plain)

  other_edges-All :
      (relation : Bytes) (raws : List Bytes)
      → All
          (IsOther relation raws)
          (other_edges parse fragment etld source mode scope relation raws)
  unfolding other_edges
  other_edges-All relation [] = tt
  other_edges-All relation (raw ∷ raws) =
      add_edge-All (IsOther relation (raw ∷ raws)) _ _
        (made-IsOther relation raw raws _ (build_edge-IsMade raw relation))
        (All-map (IsOther relation raws) (IsOther relation (raw ∷ raws)) _
          (λ e (told, among, named, plain). (told, there among, named, plain))
          (other_edges-All relation raws))

  -- An edge of one of these links.
  abbrev IsLinked : Bytes → List DiscoveredLink → DiscoveredEdge → Type 0
  IsLinked page links e =
      IsTrue e
      × LeadsAway page e
      × ((link : DiscoveredLink) × Any (λ l. l ≡ link) links × IsOf link e)
      × (e.relation_type ≡ codes "link")

  of_link-IsGood :
      (page : Bytes) (link : DiscoveredLink) (links : List DiscoveredLink)
      (o : Option DiscoveredEdge)
      → has_fragment parse fragment etld link.url ≡ false
      → IsMade link.url (codes "link") o
      → IsGood
          (IsLinked page (link ∷ links))
          (of_link parse fragment etld source mode scope page link o)
  unfolding of_link
  of_link-IsGood page link links none whole h = tt
  of_link-IsGood page link links (some e) whole (told, declared, named, _) =
      let said : DiscoveredEdge = record e {
        anchor_text = link.anchor_text;
        rel_flags_json = parse_rel_flags link.rel;
        target_attr = link.target;
      } in
      elim (Bool-cases (bytes_eq e.normalized_target_url page)) [
        | inl itself ↦
            subst (λ b. IsGood (IsLinked page (link ∷ links)) (if b then none else some said))
              (sym itself) tt
        | inr away ↦
            subst (λ b. IsGood (IsLinked page (link ∷ links)) (if b then none else some said))
              (sym away)
              (
                record {
                  from_source = told.from_source;
                  in_mode = told.in_mode;
                  kind = told.kind;
                  not_dropped = told.not_dropped;
                  normal = told.normal;
                  internal = told.internal;
                },
                λ _. (away, ap (has_fragment parse fragment etld) declared ∙ whole),
                (link, here refl, (declared, refl, refl, refl)),
                named,
              )
      ]

  link_edge-IsGood :
      (page : Bytes) (link : DiscoveredLink) (links : List DiscoveredLink)
      → IsGood
          (IsLinked page (link ∷ links))
          (link_edge parse fragment etld source mode scope page link)
  unfolding link_edge
  link_edge-IsGood page link links =
      let made =
        of_link parse fragment etld source mode scope page link
          (build_edge parse fragment etld source mode scope link.url (codes "link")) in
      elim (Bool-cases (has_fragment parse fragment etld link.url)) [
        | inl part ↦
            subst (λ b. IsGood (IsLinked page (link ∷ links)) (if b then none else made)) (sym part)
              tt
        | inr whole ↦
            subst (λ b. IsGood (IsLinked page (link ∷ links)) (if b then none else made))
              (sym whole)
              (of_link-IsGood page link links _ whole (build_edge-IsMade link.url (codes "link")))
      ]

  link_edges-All :
      (page : Bytes) (links : List DiscoveredLink)
      → All (IsLinked page links) (link_edges parse fragment etld source mode scope page links)
  unfolding link_edges
  link_edges-All page [] = tt
  link_edges-All page (link ∷ links) =
      add_edge-All (IsLinked page (link ∷ links)) _ _ (link_edge-IsGood page link links) (
        All-map (IsLinked page links) (IsLinked page (link ∷ links)) _
          (λ e (told, away, (l, among, says), named). (told, away, (l, there among, says), named))
          (link_edges-All page links))

  given :
      (o : Option Bytes) (e : DiscoveredEdge)
      → IsAmong (if_given parse fragment etld source mode scope o) e
      → o ≡ some e.declared_target_url
  unfolding if_given
  given none e among = elim among [ ]
  given (some url) e among = elim (Bool-cases (is_empty url)) [
    | inl missing ↦
        absurd (none_of (subst (λ b. IsAmong (if b then [] else url ∷ []) e) missing among))
    | inr there_is ↦
        ap some (only (subst (λ b. IsAmong (if b then [] else url ∷ []) e) there_is among))
  ]
    where
      none_of : IsAmong [] e → ⊥
      none_of among = elim among [ ]

      only : IsAmong (url ∷ []) e → url ≡ e.declared_target_url
      only (here same) = same
      only (there among) = absurd (none_of among)

  -- The edges of one kind are the page's, where they come from the place that their relation names.
  module _ (page relation : Bytes) (result : ParseResult) (raws : List Bytes) where
    other-IsEdge :
        bytes_eq relation (codes "link") ≡ false
        → ((e : DiscoveredEdge)
            → e.relation_type ≡ relation
            → IsAmong raws e
            → IsPlain e
            → IsFrom result e)
        → All (IsEdge page result) (other_edges parse fragment etld source mode scope relation raws)
    other-IsEdge other place =
        All-map (IsOther relation raws) (IsEdge page result) _
          (λ e (told, among, named, plain).
            (told, λ link. absurd (cc (link, other, named)), place e named among plain))
          (other_edges-All relation raws)

  -- Every edge of a page has the page's id and the mode, the kind of source that goes with the mode, a
  -- target whose scheme is not dropped and whose normal form is the one that it names, and is internal
  -- exactly as the scope says of that. Its relation tells where on the page its target stands: it is a
  -- link, whose text, target and flags it has, the canonical URL, an alternate page, the next or the
  -- previous page, or an image. The edge of a link leads to another URL than the page's, and has no fragment.
  pub build_edges-All :
      (page_url : Bytes) (result : ParseResult)
      → All
          (IsEdge (normal_or_empty parse fragment etld page_url) result)
          (build_edges parse fragment etld source mode scope page_url result)
  unfolding build_edges bytes_eq
  build_edges-All page_url result =
      let page = normal_or_empty parse fragment etld page_url in
      let P = IsEdge page result in
      let links =
        All-map (IsLinked page result.links) P _
          (λ e (told, away, (link, among, says), named).
            (told, away, from_link link among named says))
          (link_edges-All page result.links) in
      All-append P _ _
        (All-append P _ _
          (All-append P _ _
            (All-append P _ _
              (All-append P _ _ links (
                other-IsEdge page (codes "canonical") result _ refl (λ e named among.
                  from_canonical named
                    (sym (some_inj (given (some result.canonical_resolved) e among))))))
              (other-IsEdge page (codes "hreflang") result result.hreflangs refl
                (λ e. from_hreflang)))
            (other-IsEdge page (codes "pagination_next") result _ refl
              (λ e named among. from_next named (given result.rel_next e among))))
          (other-IsEdge page (codes "pagination_prev") result _ refl
            (λ e named among. from_prev named (given result.rel_prev e among))))
        (other-IsEdge page (codes "asset_ref") result result.images refl (λ e. from_image))
