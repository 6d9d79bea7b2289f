-- ===== src/Schema.antt =====
-- The validation of JSON-LD (internal/parser/schema_validate.go). encoding/json is the argument
-- `unmarshal`, which gives a value for a text of JSON; an object is the list of its members in the
-- order in which Go walks the map.
pub mod Rules
pub mod Limit
pub mod Lacks
pub mod Ruled
pub mod Whole
use seo_crawler_mcp.Prelude.{
  is_empty, ℕ, zero, suc, ◌+◌, Bool, true, false, not, ◌&&◌, ◌||◌, Option, none, some, List, [],
  ◌∷◌, ◌++◌, Bytes, codes, bytes_eq, if◌then◌else◌, ltb, leb, ◌==◌, length, take, keep,
}
use seo_crawler_mcp.Schema.Rules.{SchemaRule, schema_rules}

mutual
  pub data Json : Type 0 where
    null : Json
    boolean : Bool → Json
    number : Bytes → Json
    text : Bytes → Json
    array : Items → Json
    object : Members → Json

  pub data Items : Type 0 where
    no_items : Items
    item : Json → Items → Items

  pub data Members : Type 0 where
    no_members : Members
    member : Bytes → Json → Members → Members

pub record SchemaValidationResult : Type 0 where
  pub schema_type : Bytes
  pub missing_required : List Bytes
  pub missing_recommended : List Bytes
  pub valid : Bool
  pub nested : Bool
  pub source : Bytes
  pub google_doc_url : Bytes

abbrev pub max_validation_results : ℕ
max_validation_results = 50

unfoldable pub is_empty_value : Json → Bool
is_empty_value null = true
is_empty_value (text s) = is_empty s
is_empty_value (array no_items) = true
is_empty_value (object no_members) = true
is_empty_value _ = false

unfoldable pub lookup : Bytes → Members → Option Json
lookup key no_members = none
lookup key (member k v rest) =
    let later = lookup key rest in if bytes_eq k key then some v else later

unfoldable pub texts_of : Items → List Bytes
texts_of no_items = []
texts_of (item (text s) rest) = s ∷ texts_of rest
texts_of (item _ rest) = texts_of rest

unfoldable pub types_in : Option Json → List Bytes
types_in (some (text s)) = s ∷ []
types_in (some (array items)) = texts_of items
types_in _ = []

unfoldable pub extract_types : Members → List Bytes
extract_types obj = types_in (lookup (codes "@type") obj)

unfoldable pub is_absent : Option Json → Bool
is_absent none = true
is_absent (some v) = is_empty_value v

-- sort.Strings
unfoldable pub bytes_leb : Bytes → Bytes → Bool
bytes_leb [] t = true
bytes_leb (x ∷ s) [] = false
bytes_leb (x ∷ s) (y ∷ t) = ltb x y || (x == y && bytes_leb s t)

unfoldable pub insert_text : Bytes → List Bytes → List Bytes
insert_text s [] = s ∷ []
insert_text s (t ∷ ts) =
    let rest = insert_text s ts in if bytes_leb s t then s ∷ t ∷ ts else t ∷ rest

unfoldable pub sort_texts : List Bytes → List Bytes
sort_texts [] = []
sort_texts (s ∷ ss) = insert_text s (sort_texts ss)

unfoldable pub missing : Members → List Bytes → List Bytes
missing obj properties = sort_texts (keep (λ property. is_absent (lookup property obj)) properties)

unfoldable pub rule_for : Bytes → List (Bytes × SchemaRule) → Option SchemaRule
rule_for t [] = none
rule_for t ((name, rule) ∷ rules) =
    let later = rule_for t rules in if bytes_eq name t then some rule else later

unfoldable pub result_for : Bool → Members → Bytes → SchemaRule → SchemaValidationResult
result_for nested obj t rule = record {
  schema_type = t;
  missing_required = missing obj rule.required;
  missing_recommended = missing obj rule.recommended;
  valid = length (missing obj rule.required) == 0;
  nested = nested;
  source = rule.source;
  google_doc_url = rule.google_doc_url;
}

-- The loop over the types. It ends the whole function, which is then true, at the limit.
unfoldable pub check_types :
    Bool → Members → List Bytes → List SchemaValidationResult → List SchemaValidationResult × Bool
check_types nested obj [] results = (results, false)
check_types nested obj (t ∷ types) results = elim (rule_for t schema_rules) [
  | none ↦ check_types nested obj types results
  | some rule ↦
      let more = results ++ result_for nested obj t rule ∷ [] in
      let rest = check_types nested obj types more in
      if leb max_validation_results (length more)
      then (take max_validation_results more, true)
      else rest
]

abbrev pub Validator : Type 0
Validator = Members → List SchemaValidationResult

-- What a value within an object gives: nothing unless it is an object, and nothing where a type is
-- asked for and the object has none.
unfoldable pub has_type : Members → Bool
has_type m = elim (lookup (codes "@type") m) [ none ↦ false | some _ ↦ true ]

unfoldable pub nested_results : Bool → Validator → Json → List SchemaValidationResult
nested_results typed validate (object m) = if typed && not (has_type m) then [] else validate m
nested_results typed validate _ = []

-- A loop that adds the results of each value, cuts them at the limit and stops there.
unfoldable pub each_item :
    (Json → List SchemaValidationResult)
    → Items
    → List SchemaValidationResult
    → List SchemaValidationResult
each_item results_of no_items results = results
each_item results_of (item j rest) results =
    let more = each_item results_of rest (take max_validation_results (results ++ results_of j)) in
    if leb max_validation_results (length results) then results else more

unfoldable pub graph_results : Validator → Option Json → List SchemaValidationResult
graph_results validate (some (array items)) = each_item (nested_results false validate) items []
graph_results validate _ = []

unfoldable pub in_value :
    Validator → Json → List SchemaValidationResult → List SchemaValidationResult
in_value validate (array items) results = each_item (nested_results true validate) items results
in_value validate v results =
    take max_validation_results (results ++ nested_results true validate v)

-- The loop over the members but "@graph".
unfoldable pub in_members :
    Validator → Members → List SchemaValidationResult → List SchemaValidationResult
in_members validate no_members results = results
in_members validate (member k v rest) results =
    let skipped = in_members validate rest results in
    let more = in_members validate rest (in_value validate v results) in
    if bytes_eq k (codes "@graph")
    then skipped
    else if leb max_validation_results (length results)
    then results
    else more

unfoldable pub unless_ended :
    Validator → Members → List SchemaValidationResult × Bool → List SchemaValidationResult
unless_ended validate m (results, ended) = if ended then results else in_members validate m results

-- Objects are validated down to a depth of 5: the depth is 6 less the first argument, and an object at
-- a depth above 0 is a nested one.
unfoldable pub validate_object : ℕ → Validator
validate_object zero m = []
validate_object (suc left) m =
    let validate = validate_object left in
    unless_ended validate m (
      check_types (ltb left 5) m (extract_types m)
        (graph_results validate (lookup (codes "@graph") m)))

abbrev pub levels : ℕ
levels = 6

-- Unmarshal into a map and into a slice: null gives an empty one.
unfoldable pub as_object : Json → Option Members
as_object (object m) = some m
as_object null = some no_members
as_object _ = none

unfoldable pub as_array : Json → Option Items
as_array (array items) = some items
as_array null = some no_items
as_array _ = none

unfoldable pub validate_value : Json → List SchemaValidationResult
validate_value v = elim (as_object v) [ none ↦ [] | some m ↦ validate_object levels m ]

unfoldable pub is_true : Option Json → Bool
is_true (some (boolean b)) = b
is_true _ = false

module _ (unmarshal : Bytes → Option Json) where
  -- A list of values, each given its results, or one value.
  unfoldable pub validate_parsed :
      (Json → List SchemaValidationResult) → Option Json → List SchemaValidationResult
  validate_parsed results_of none = []
  validate_parsed results_of (some v) = elim (as_array v) [
    | none ↦ validate_value v
    | some items ↦ each_item results_of items []
  ]

  unfoldable pub validate_raw_json : Bytes → List SchemaValidationResult
  validate_raw_json raw =
      if is_empty raw then [] else validate_parsed validate_value (unmarshal raw)

  -- A block of the page's parser has its JSON as a text under "raw".
  unfoldable pub validate_block : Members → Option Json → List SchemaValidationResult
  validate_block m (some (text raw)) =
      if is_true (lookup (codes "malformed") m) then [] else validate_raw_json raw
  validate_block m _ = validate_object levels m

  unfoldable pub validate_raw_item : Json → List SchemaValidationResult
  validate_raw_item v = elim (as_object v) [
    | none ↦ []
    | some m ↦ validate_block m (lookup (codes "raw") m)
  ]

  unfoldable pub validate_jsonld : Bytes → List SchemaValidationResult
  validate_jsonld raw =
      if is_empty raw then [] else validate_parsed validate_raw_item (unmarshal raw)
