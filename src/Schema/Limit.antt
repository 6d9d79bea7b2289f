-- ===== src/Schema/Limit.antt =====
-- There are never more results than the limit.
use seo_crawler_mcp.Prelude.{
  is_empty, ℕ, zero, suc, ◌≤◌, Bool, true, false, Option, none, some, List, [], ◌∷◌, ◌++◌, Bytes,
  codes, ltb, leb, length, take, Bool-cases, Option-cases, inl, inr, arith,
}
use seo_crawler_mcp.Schema.Rules.{schema_rules}
use seo_crawler_mcp.Schema.{
  Json, null, boolean, number, text, array, object, Items, no_items, item, Members, no_members,
  member, SchemaValidationResult, max_validation_results, lookup, rule_for, result_for, check_types,
  Validator, nested_results, each_item, graph_results, in_value, in_members, unless_ended,
  extract_types, validate_object, as_object, as_array, validate_value, validate_parsed,
  validate_raw_item, validate_jsonld, levels,
}

abbrev pub Results : Type 0
Results = List SchemaValidationResult

length-take_le {ℓ} : {A : Type ℓ} (n : ℕ) (xs : List A) → length (take n xs) ≤ n
length-take_le zero xs = omega arith
length-take_le (suc n) [] = omega arith
length-take_le (suc n) (x ∷ xs) = omega (arith, length-take_le n xs)

abbrev pub IsWithin : Results → Type 0
IsWithin results = length results ≤ max_validation_results

each_item-IsWithin :
    (results_of : Json → Results) (items : Items) (results : Results)
    → IsWithin results
    → IsWithin (each_item results_of items results)
unfolding each_item
each_item-IsWithin results_of no_items results h = h
each_item-IsWithin results_of (item j rest) results h =
    let cut = take max_validation_results (results ++ results_of j) in
    ground (
      arith,
      h,
      each_item-IsWithin results_of rest cut
          (length-take_le max_validation_results (results ++ results_of j)),
    )

check_types-IsWithin :
    (nested : Bool) (obj : Members) (types : List Bytes) (results : Results)
    → IsWithin results
    → IsWithin (check_types nested obj types results).0
unfolding check_types
check_types-IsWithin nested obj [] results h = h
check_types-IsWithin nested obj (t ∷ types) results h =
    elim (Option-cases (rule_for t schema_rules)) [
      | inl unknown ↦ ground (arith, unknown, check_types-IsWithin nested obj types results h)
      | inr (rule, known) ↦
          let more = results ++ result_for nested obj t rule ∷ [] in
          elim (Bool-cases (leb max_validation_results (length more))) [
            | inl full ↦ ground (arith, known, full, length-take_le max_validation_results more)
            | inr room ↦ ground (
              arith,
              known,
              room,
              check_types-IsWithin nested obj types more (ground (arith, room)),
            )
          ]
    ]

graph_results-IsWithin :
    (validate : Validator) (o : Option Json) → IsWithin (graph_results validate o)
unfolding graph_results
graph_results-IsWithin validate (some (array items)) =
    each_item-IsWithin (nested_results false validate) items [] (omega arith)
graph_results-IsWithin validate (some null) = omega arith
graph_results-IsWithin validate (some (boolean b)) = omega arith
graph_results-IsWithin validate (some (number n)) = omega arith
graph_results-IsWithin validate (some (text s)) = omega arith
graph_results-IsWithin validate (some (object m)) = omega arith
graph_results-IsWithin validate none = omega arith

in_value-IsWithin :
    (validate : Validator) (v : Json) (results : Results)
    → IsWithin results
    → IsWithin (in_value validate v results)
unfolding in_value
in_value-IsWithin validate (array items) results h =
    each_item-IsWithin (nested_results true validate) items results h
in_value-IsWithin validate null results h =
    length-take_le max_validation_results (results ++ nested_results true validate null)
in_value-IsWithin validate (boolean b) results h =
    length-take_le max_validation_results (results ++ nested_results true validate (boolean b))
in_value-IsWithin validate (number n) results h =
    length-take_le max_validation_results (results ++ nested_results true validate (number n))
in_value-IsWithin validate (text s) results h =
    length-take_le max_validation_results (results ++ nested_results true validate (text s))
in_value-IsWithin validate (object m) results h =
    length-take_le max_validation_results (results ++ nested_results true validate (object m))

in_members-IsWithin :
    (validate : Validator) (m : Members) (results : Results)
    → IsWithin results
    → IsWithin (in_members validate m results)
unfolding in_members
in_members-IsWithin validate no_members results h = h
in_members-IsWithin validate (member k v rest) results h = ground (
  arith,
  h,
  in_members-IsWithin validate rest results h,
  in_members-IsWithin validate rest (in_value validate v results)
      (in_value-IsWithin validate v results h),
)

unless_ended-IsWithin :
    (validate : Validator) (m : Members) (r : Results × Bool)
    → IsWithin r.0
    → IsWithin (unless_ended validate m r)
unfolding unless_ended
unless_ended-IsWithin validate m (results, true) h = h
unless_ended-IsWithin validate m (results, false) h = in_members-IsWithin validate m results h

validate_object-IsWithin : (left : ℕ) (m : Members) → IsWithin (validate_object left m)
unfolding validate_object
validate_object-IsWithin zero m = omega arith
validate_object-IsWithin (suc left) m = unless_ended-IsWithin (validate_object left) m _ (
    check_types-IsWithin (ltb left 5) m (extract_types m) _
      (graph_results-IsWithin (validate_object left) (lookup (codes "@graph") m)))

validate_value-IsWithin : (v : Json) → IsWithin (validate_value v)
unfolding validate_value as_object
validate_value-IsWithin null = validate_object-IsWithin levels no_members
validate_value-IsWithin (boolean b) = omega arith
validate_value-IsWithin (number n) = omega arith
validate_value-IsWithin (text s) = omega arith
validate_value-IsWithin (array items) = omega arith
validate_value-IsWithin (object m) = validate_object-IsWithin levels m

module _ (unmarshal : Bytes → Option Json) where
  validate_parsed-IsWithin :
      (results_of : Json → Results) (o : Option Json)
      → IsWithin (validate_parsed unmarshal results_of o)
  unfolding validate_parsed as_array
  validate_parsed-IsWithin results_of none = omega arith
  validate_parsed-IsWithin results_of (some null) =
      each_item-IsWithin results_of no_items [] (omega arith)
  validate_parsed-IsWithin results_of (some (boolean b)) = validate_value-IsWithin (boolean b)
  validate_parsed-IsWithin results_of (some (number n)) = validate_value-IsWithin (number n)
  validate_parsed-IsWithin results_of (some (text s)) = validate_value-IsWithin (text s)
  validate_parsed-IsWithin results_of (some (array items)) =
      each_item-IsWithin results_of items [] (omega arith)
  validate_parsed-IsWithin results_of (some (object m)) = validate_value-IsWithin (object m)

  -- Whatever the text and whatever encoding/json makes of it, ValidateJSONLD gives at most 50 results.
  pub validate_jsonld-IsWithin : (raw : Bytes) → length (validate_jsonld unmarshal raw) ≤ 50
  unfolding validate_jsonld
  validate_jsonld-IsWithin raw = elim (Bool-cases (is_empty raw)) [
    | inl nothing ↦ ground (arith, nothing)
    | inr something ↦
        ground
          (arith, something, validate_parsed-IsWithin (validate_raw_item unmarshal) (unmarshal raw))
  ]
