-- ===== src/Schema/Whole.antt =====
-- Each result of ValidateJSONLD follows its type's rule.
use seo_crawler_mcp.Prelude.{
  ◌≡◌, refl, sym, subst, is_empty, ℕ, zero, suc, Option, none, some, [], Bytes, codes, ltb, All,
}
use seo_crawler_mcp.Schema.{
  Json, null, boolean, number, text, array, object, no_items, Members, no_members, lookup,
  extract_types, types_in, check_types, graph_results, unless_ended, in_members, validate_object,
  as_object, as_array, validate_value, validate_parsed, validate_raw_json, validate_block,
  validate_raw_item, validate_jsonld, is_true, levels,
}
use seo_crawler_mcp.Schema.Lacks.{Within, itself, in_array, in_object, lookup-Within}
use seo_crawler_mcp.Schema.Limit.{Results}
use seo_crawler_mcp.Schema.Ruled.{
  Closed, ClosedMembers, All-bytes_mem_self, IsRuled, AllRuled, if_All, each_item-All,
  check_types-All, graph_results-All, unless_ended-All,
}

-- Nothing comes of an object without members, which is what null is taken for.
validate_object_nothing : validate_object levels no_members ≡ []
unfolding validate_object check_types extract_types types_in lookup graph_results unless_ended
    in_members
validate_object_nothing = refl

module _ (In : Members → Type 0) where
  nothing-All : AllRuled In (validate_object levels no_members)
  nothing-All = subst (AllRuled In) (sym validate_object_nothing) tt

  validate_object-All :
      (left : ℕ) (m : Members) → Closed In (object m) → AllRuled In (validate_object left m)
  unfolding validate_object
  validate_object-All zero m closed = tt
  validate_object-All (suc left) m closed =
      let inner = validate_object-All left in
      let below : ClosedMembers In m = λ obj w. closed obj (in_object w) in
      unless_ended-All In (validate_object left) inner m _ below (
        check_types-All In (ltb left 5) m (extract_types m) _ (closed m itself)
          (All-bytes_mem_self (extract_types m))
          (graph_results-All In (validate_object left) inner (lookup (codes "@graph") m)
            (λ v found obj w. below obj (lookup-Within (codes "@graph") m found w))))

  validate_value-All : (v : Json) → Closed In v → AllRuled In (validate_value v)
  unfolding validate_value as_object
  validate_value-All null closed = nothing-All
  validate_value-All (boolean b) closed = tt
  validate_value-All (number n) closed = tt
  validate_value-All (text s) closed = tt
  validate_value-All (array items) closed = tt
  validate_value-All (object m) closed = validate_object-All levels m closed

  module _ (unmarshal : Bytes → Option Json) where
    validate_parsed-All :
        (results_of : Json → Results) (o : Option Json)
        → ((v : Json) → Closed In v → AllRuled In (results_of v))
        → ((v : Json) → o ≡ some v → Closed In v)
        → AllRuled In (validate_parsed unmarshal results_of o)
    unfolding validate_parsed as_array
    validate_parsed-All results_of none of closed = tt
    validate_parsed-All results_of (some null) of closed =
        each_item-All In results_of no_items [] of (λ obj w. elim w [ ]) tt
    validate_parsed-All results_of (some (boolean b)) of closed =
        validate_value-All (boolean b) (closed (boolean b) refl)
    validate_parsed-All results_of (some (number n)) of closed =
        validate_value-All (number n) (closed (number n) refl)
    validate_parsed-All results_of (some (text s)) of closed =
        validate_value-All (text s) (closed (text s) refl)
    validate_parsed-All results_of (some (array items)) of closed =
        each_item-All In results_of items [] of
          (λ obj w. closed (array items) refl obj (in_array w)) tt
    validate_parsed-All results_of (some (object m)) of closed =
        validate_value-All (object m) (closed (object m) refl)

    validate_raw_json-All :
        (raw : Bytes)
        → ((v : Json) → unmarshal raw ≡ some v → Closed In v)
        → AllRuled In (validate_raw_json unmarshal raw)
    unfolding validate_raw_json
    validate_raw_json-All raw closed =
        if_All (IsRuled In) (is_empty raw) [] _ tt
          (validate_parsed-All validate_value (unmarshal raw) validate_value-All closed)

    validate_block-All :
        (m : Members) (o : Option Json)
        → Closed In (object m)
        → ((s : Bytes) (v : Json) → o ≡ some (text s) → unmarshal s ≡ some v → Closed In v)
        → AllRuled In (validate_block unmarshal m o)
    unfolding validate_block
    validate_block-All m (some (text raw)) closed inner =
        if_All (IsRuled In) (is_true (lookup (codes "malformed") m)) [] _ tt
          (validate_raw_json-All raw (λ v. inner raw v refl))
    validate_block-All m none closed inner = validate_object-All levels m closed
    validate_block-All m (some null) closed inner = validate_object-All levels m closed
    validate_block-All m (some (boolean b)) closed inner = validate_object-All levels m closed
    validate_block-All m (some (number n)) closed inner = validate_object-All levels m closed
    validate_block-All m (some (array items)) closed inner = validate_object-All levels m closed
    validate_block-All m (some (object o)) closed inner = validate_object-All levels m closed

    validate_raw_item-All :
        (v : Json)
        → Closed In v
        → ((m : Members) (s : Bytes) (w : Json)
            → Within m v
            → lookup (codes "raw") m ≡ some (text s)
            → unmarshal s ≡ some w
            → Closed In w)
        → AllRuled In (validate_raw_item unmarshal v)
    unfolding validate_raw_item as_object validate_block lookup
    validate_raw_item-All null closed inner = nothing-All
    validate_raw_item-All (boolean b) closed inner = tt
    validate_raw_item-All (number n) closed inner = tt
    validate_raw_item-All (text s) closed inner = tt
    validate_raw_item-All (array items) closed inner = tt
    validate_raw_item-All (object m) closed inner =
        validate_block-All m (lookup (codes "raw") m) closed (λ s w. inner m s w itself)

module _ (unmarshal : Bytes → Option Json) where
  -- An object that the text holds, or that a text under "raw" in such an object holds.
  pub data IsHeld (raw : Bytes) : Members → Type 0 where
    in_document :
        {v : Json} {obj : Members} → unmarshal raw ≡ some v → Within obj v → IsHeld raw obj
    in_block :
        {w : Json} {m obj : Members} {s : Bytes}
        → IsHeld raw m
        → lookup (codes "raw") m ≡ some (text s)
        → unmarshal s ≡ some w
        → Within obj w
        → IsHeld raw obj

  -- Whatever the text and whatever encoding/json makes of it, each result of ValidateJSONLD is of a type
  -- that has a rule and that an object has which the text holds. It takes the rule's source, names as
  -- missing exactly the properties that the rule requires, and recommends, and that this object does
  -- not have or leaves empty, and it is valid exactly if it names none that is required.
  pub validate_jsonld-All :
      (raw : Bytes) → All (IsRuled (IsHeld raw)) (validate_jsonld unmarshal raw)
  unfolding validate_jsonld
  validate_jsonld-All raw = if_All (IsRuled (IsHeld raw)) (is_empty raw) [] _ tt (
      validate_parsed-All (IsHeld raw) unmarshal (validate_raw_item unmarshal) (unmarshal raw)
        (λ v closed.
          validate_raw_item-All (IsHeld raw) unmarshal v closed
            (λ m s w within block read obj. in_block (closed m within) block read))
        (λ v read obj. in_document read))
