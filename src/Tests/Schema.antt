-- ===== src/Tests/Schema.antt =====
-- JSON-LD and its validation (internal/parser/schema_validate.go), and the theorems at it.
use seo_crawler_mcp.Prelude.{
  true, false, Option, some, [], ◌∷◌, Bytes, codes, bytes_eq, All, map, ◌≡◌, refl,
}
use seo_crawler_mcp.Schema.Rules.{google, best_practice, schema_rules}
use seo_crawler_mcp.Schema.{
  Json, text, object, Members, no_members, member, is_empty_value, lookup, texts_of, types_in,
  extract_types, is_absent, bytes_leb, insert_text, sort_texts, missing, rule_for, result_for,
  check_types, has_type, nested_results, each_item, graph_results, in_value, in_members,
  unless_ended, validate_object, as_object, as_array, validate_value, is_true, validate_parsed,
  validate_raw_json, validate_block, validate_raw_item, validate_jsonld,
}
use seo_crawler_mcp.Schema.Ruled.{IsRuled}
use seo_crawler_mcp.Schema.Whole.{IsHeld, validate_jsonld-All}

validating : Unit {0}
unfolding bytes_eq google best_practice schema_rules is_empty_value lookup texts_of types_in
    extract_types is_absent bytes_leb insert_text sort_texts missing rule_for result_for check_types
    has_type nested_results each_item graph_results in_value in_members unless_ended validate_object
    as_object as_array validate_value is_true validate_parsed validate_raw_json validate_block
    validate_raw_item validate_jsonld
validating = tt

-- A product with an offer that has no currency.
abbrev offer : Json
offer = object (
    member (codes "@type") (text (codes "Offer"))
      (member (codes "price") (text (codes "9")) no_members))

abbrev product : Members
product =
    member (codes "@type") (text (codes "Product"))
      (member (codes "name") (text []) (member (codes "offers") offer no_members))

abbrev parsed : Bytes → Option Json
parsed raw = some (object product)

validate_jsonld_runs :
    (map (λ r. r.schema_type) (validate_jsonld parsed (codes "{}"))
      ≡ codes "Product" ∷ codes "Offer" ∷ [])
    × (map (λ r. r.missing_required) (validate_jsonld parsed (codes "{}"))
        ≡ (codes "name" ∷ []) ∷ (codes "priceCurrency" ∷ []) ∷ [])
    × (map (λ r. r.nested) (validate_jsonld parsed (codes "{}")) ≡ false ∷ true ∷ [])
unfolding validating
validate_jsonld_runs = (refl, refl, refl)

validate_jsonld-All_example :
    All (IsRuled (IsHeld parsed (codes "{}"))) (validate_jsonld parsed (codes "{}"))
validate_jsonld-All_example = validate_jsonld-All parsed (codes "{}")
