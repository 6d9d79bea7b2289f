-- ===== src/Crawl/Places.antt =====
-- Where on a page an edge comes from, and what it says of that.
use seo_crawler_mcp.Prelude.{
  some, List, [], ◌∷◌, ◌++◌, Bytes, codes, bytes_eq, bytes_eq_iff, Bool-cases, All, Any, ◌≡◌, refl,
  ◌⊎◌, ◌≢◌, inl, inr,
}
use seo_crawler_mcp.Crawl.{
  DiscoveredLink, ParseResult, DiscoveredEdge, parse_rel_flags, source_kind_of,
}

pub All-append {ℓ κ} :
    {A : Type ℓ} (P : A → Type κ) (xs ys : List A) → All P xs → All P ys → All P (xs ++ ys)
All-append P [] ys hs ks = ks
All-append P (x ∷ xs) ys (h, hs) ks = (h, All-append P xs ys hs ks)

pub All-map :
    {A : Type 0} (P Q : A → Type 0) (xs : List A) → ((x : A) → P x → Q x) → All P xs → All Q xs
All-map P Q [] f hs = tt
All-map P Q (x ∷ xs) f (h, hs) = (f x h, All-map P Q xs f hs)

-- A page that a browser has rendered is a DOM, any other is HTML.
abbrev pub IsKind : Bytes → Bytes → Type 0
IsKind mode kind =
    ((mode ≡ codes "browser") × (kind ≡ codes "rendered_dom"))
    ⊎ ((mode ≢ codes "browser") × (kind ≡ codes "html"))

pub source_kind_of-IsKind : (mode : Bytes) → IsKind mode (source_kind_of mode)
unfolding source_kind_of
source_kind_of-IsKind mode = elim (Bool-cases (bytes_eq mode (codes "browser"))) [
  | inl browser ↦ inl ((bytes_eq_iff mode (codes "browser")).0 browser, rw browser refl)
  | inr other ↦
      inr (λ same. absurd (cc (other, (bytes_eq_iff mode (codes "browser")).1 same)), rw other refl)
]

-- An edge that no link makes has no text, no target and no flags.
abbrev pub IsPlain : DiscoveredEdge → Type 0
IsPlain e = (e.anchor_text ≡ []) × (e.target_attr ≡ []) × (e.rel_flags_json ≡ codes "[]")

abbrev pub IsAmong : List Bytes → DiscoveredEdge → Type 0
IsAmong urls e = Any (λ url. url ≡ e.declared_target_url) urls

-- An edge of this link says what the link says.
abbrev pub IsOf : DiscoveredLink → DiscoveredEdge → Type 0
IsOf link e =
    (e.declared_target_url ≡ link.url)
    × (e.anchor_text ≡ link.anchor_text)
    × (e.target_attr ≡ link.target)
    × (e.rel_flags_json ≡ parse_rel_flags link.rel)

-- Where on the page an edge comes from, which its relation names.
pub data IsFrom (result : ParseResult) (e : DiscoveredEdge) : Type 0 where
  from_link :
      (link : DiscoveredLink)
      → Any (λ l. l ≡ link) result.links
      → e.relation_type ≡ codes "link"
      → IsOf link e
      → IsFrom result e
  from_canonical :
      e.relation_type ≡ codes "canonical"
      → e.declared_target_url ≡ result.canonical_resolved
      → IsPlain e
      → IsFrom result e
  from_hreflang :
      e.relation_type ≡ codes "hreflang" → IsAmong result.hreflangs e → IsPlain e → IsFrom result e
  from_next :
      e.relation_type ≡ codes "pagination_next"
      → result.rel_next ≡ some e.declared_target_url
      → IsPlain e
      → IsFrom result e
  from_prev :
      e.relation_type ≡ codes "pagination_prev"
      → result.rel_prev ≡ some e.declared_target_url
      → IsPlain e
      → IsFrom result e
  from_image :
      e.relation_type ≡ codes "asset_ref" → IsAmong result.images e → IsPlain e → IsFrom result e

pub some_inj : {x y : Bytes} → some x ≡ some y → x ≡ y
some_inj h = cc h
