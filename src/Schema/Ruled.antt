-- ===== src/Schema/Ruled.antt =====
-- Each result follows its type's rule.
use seo_crawler_mcp.Prelude.{
  ℕ, zero, suc, Bool, true, false, not, ◌&&◌, Option, none, some, List, [], ◌∷◌, ◌++◌, Bytes, codes,
  bytes_eq, bytes_eq_refl, bytes_mem, if◌then◌else◌, leb, ◌==◌, length, take, All, Bool-cases,
  Option-cases, ◌≡◌, refl, sym, subst, inl, inr, arith,
}
use seo_crawler_mcp.Schema.Rules.{SchemaRule, schema_rules}
use seo_crawler_mcp.Schema.{
  Json, null, boolean, number, text, array, object, Items, no_items, item, Members, no_members,
  member, SchemaValidationResult, max_validation_results, extract_types, rule_for, result_for,
  check_types, Validator, has_type, nested_results, each_item, graph_results, in_value, in_members,
  unless_ended,
}
use seo_crawler_mcp.Schema.Limit.{Results}
use seo_crawler_mcp.Schema.Lacks.{
  Within, in_array, WithinItems, at_item, past_item, WithinMembers, at_member, past_member,
  AreLacks, missing-AreLacks,
}

module _ {A : Type 0} (P : A → Type 0) where
  All-append : (xs ys : List A) → All P xs → All P ys → All P (xs ++ ys)
  All-append [] ys hs ks = ks
  All-append (x ∷ xs) ys (h, hs) ks = (h, All-append xs ys hs ks)

  All-take : (n : ℕ) (xs : List A) → All P xs → All P (take n xs)
  All-take zero xs hs = tt
  All-take (suc n) [] hs = tt
  All-take (suc n) (x ∷ xs) (h, hs) = (h, All-take n xs hs)

  pub if_All : (b : Bool) (xs ys : List A) → All P xs → All P ys → All P (if b then xs else ys)
  if_All true xs ys hs ks = hs
  if_All false xs ys hs ks = ks

-- The type of the result has a rule, and an object has the type: the result takes the rule's source,
-- names the properties that the rule requires or recommends and that the object leaves unsaid, those
-- and no others, and is valid exactly if it names nothing that is required.
abbrev pub IsRuled : (Members → Type 0) → SchemaValidationResult → Type 0
IsRuled In r =
    (rule : SchemaRule) × (obj : Members) × In obj
    × (rule_for r.schema_type schema_rules ≡ some rule)
    × (bytes_mem r.schema_type (extract_types obj) ≡ true)
    × (r.source ≡ rule.source)
    × (r.valid ≡ (length r.missing_required == 0))
    × AreLacks obj rule.required r.missing_required
    × AreLacks obj rule.recommended r.missing_recommended

abbrev pub AllRuled : (Members → Type 0) → Results → Type 0
AllRuled In results = All (IsRuled In) results

All-bytes_mem :
    (us ts : List Bytes)
    → ((t : Bytes) → bytes_mem t ts ≡ true → bytes_mem t us ≡ true)
    → All (λ t. bytes_mem t us ≡ true) ts
unfolding bytes_mem
All-bytes_mem us [] f = tt
All-bytes_mem us (t ∷ ts) f = (
  f t (ground (arith, bytes_eq_refl t)),
  All-bytes_mem us ts (λ u among. f u (ground (arith, among))),
)

pub All-bytes_mem_self : (ts : List Bytes) → All (λ t. bytes_mem t ts ≡ true) ts
All-bytes_mem_self ts = All-bytes_mem ts ts (λ t among. among)

result_for-IsRuled :
    (In : Members → Type 0) (nested : Bool) (obj : Members) (t : Bytes) (rule : SchemaRule)
    → In obj
    → bytes_mem t (extract_types obj) ≡ true
    → rule_for t schema_rules ≡ some rule
    → IsRuled In (result_for nested obj t rule)
unfolding result_for
result_for-IsRuled In nested obj t rule within typed known = (
  rule,
  obj,
  within,
  known,
  typed,
  refl,
  refl,
  missing-AreLacks obj rule.required,
  missing-AreLacks obj rule.recommended,
)

-- The objects within these values are among those that are meant.
abbrev pub Closed : (Members → Type 0) → Json → Type 0
Closed In v = (obj : Members) → Within obj v → In obj

abbrev ClosedItems : (Members → Type 0) → Items → Type 0
ClosedItems In items = (obj : Members) → WithinItems obj items → In obj

abbrev pub ClosedMembers : (Members → Type 0) → Members → Type 0
ClosedMembers In m = (obj : Members) → WithinMembers obj m → In obj

module _ (In : Members → Type 0) where
  pub each_item-All :
      (results_of : Json → Results) (items : Items) (results : Results)
      → ((v : Json) → Closed In v → AllRuled In (results_of v))
      → ClosedItems In items
      → AllRuled In results
      → AllRuled In (each_item results_of items results)
  unfolding each_item
  each_item-All results_of no_items results of closed hs = hs
  each_item-All results_of (item j rest) results of closed hs =
      let cut = All-take (IsRuled In) max_validation_results _ (
        All-append (IsRuled In) results (results_of j) hs
          (of j (λ obj w. closed obj (at_item w)))) in
      if_All (IsRuled In) (leb max_validation_results (length results)) results _ hs
        (each_item-All results_of rest _ of (λ obj w. closed obj (past_item w)) cut)

  pub check_types-All :
      (nested : Bool) (obj : Members) (types : List Bytes) (results : Results)
      → In obj
      → All (λ t. bytes_mem t (extract_types obj) ≡ true) types
      → AllRuled In results
      → AllRuled In (check_types nested obj types results).0
  unfolding check_types
  check_types-All nested obj [] results within typed hs = hs
  check_types-All nested obj (t ∷ types) results within (named, typed) hs =
      elim (Option-cases (rule_for t schema_rules)) [
        | inl unknown ↦
            subst (AllRuled In) (sym (skips unknown))
              (check_types-All nested obj types results within typed hs)
        | inr (rule, known) ↦
            let more = results ++ result_for nested obj t rule ∷ [] in
            let held =
              All-append (IsRuled In) results (result_for nested obj t rule ∷ []) hs
                (result_for-IsRuled In nested obj t rule within named known, tt) in
            elim (Bool-cases (leb max_validation_results (length more))) [
              | inl full ↦
                  subst (AllRuled In) (sym (ends rule known full))
                    (All-take (IsRuled In) max_validation_results more held)
              | inr room ↦
                  subst (AllRuled In) (sym (goes_on rule known room))
                    (check_types-All nested obj types more within typed held)
            ]
      ]
    where
      skips :
          rule_for t schema_rules ≡ none
          → (check_types nested obj (t ∷ types) results).0
            ≡ (check_types nested obj types results).0
      skips unknown = ground (arith, unknown)

      ends :
          (rule : SchemaRule)
          → rule_for t schema_rules ≡ some rule
          → leb max_validation_results (length (results ++ result_for nested obj t rule ∷ []))
            ≡ true
          → (check_types nested obj (t ∷ types) results).0
            ≡ take max_validation_results (results ++ result_for nested obj t rule ∷ [])
      ends rule known full = ground (arith, known, full)

      goes_on :
          (rule : SchemaRule)
          → rule_for t schema_rules ≡ some rule
          → leb max_validation_results (length (results ++ result_for nested obj t rule ∷ []))
            ≡ false
          → (check_types nested obj (t ∷ types) results).0
            ≡ (check_types nested obj types (results ++ result_for nested obj t rule ∷ [])).0
      goes_on rule known room = ground (arith, known, room)

  module _ (validate : Validator)
      (validated : (m : Members) → Closed In (object m) → AllRuled In (validate m)) where
    nested_results-All :
        (typed : Bool) (v : Json) → Closed In v → AllRuled In (nested_results typed validate v)
    unfolding nested_results
    nested_results-All typed (object m) closed =
        if_All (IsRuled In) (typed && not (has_type m)) [] (validate m) tt (validated m closed)
    nested_results-All typed null closed = tt
    nested_results-All typed (boolean b) closed = tt
    nested_results-All typed (number n) closed = tt
    nested_results-All typed (text s) closed = tt
    nested_results-All typed (array items) closed = tt

    pub graph_results-All :
        (o : Option Json)
        → ((v : Json) → o ≡ some v → Closed In v)
        → AllRuled In (graph_results validate o)
    unfolding graph_results
    graph_results-All (some (array items)) closed =
        each_item-All (nested_results false validate) items [] (nested_results-All false)
          (λ obj w. closed (array items) refl obj (in_array w)) tt
    graph_results-All (some null) closed = tt
    graph_results-All (some (boolean b)) closed = tt
    graph_results-All (some (number n)) closed = tt
    graph_results-All (some (text s)) closed = tt
    graph_results-All (some (object m)) closed = tt
    graph_results-All none closed = tt

    added :
        (v : Json) (results : Results)
        → Closed In v
        → AllRuled In results
        → AllRuled In (take max_validation_results (results ++ nested_results true validate v))
    added v results closed hs = All-take (IsRuled In) max_validation_results _ (
        All-append (IsRuled In) results (nested_results true validate v) hs
          (nested_results-All true v closed))

    in_value-All :
        (v : Json) (results : Results)
        → Closed In v
        → AllRuled In results
        → AllRuled In (in_value validate v results)
    unfolding in_value
    in_value-All (array items) results closed hs =
        each_item-All (nested_results true validate) items results (nested_results-All true)
          (λ obj w. closed obj (in_array w)) hs
    in_value-All null results closed hs = added null results closed hs
    in_value-All (boolean b) results closed hs = added (boolean b) results closed hs
    in_value-All (number n) results closed hs = added (number n) results closed hs
    in_value-All (text s) results closed hs = added (text s) results closed hs
    in_value-All (object m) results closed hs = added (object m) results closed hs

    in_members-All :
        (m : Members) (results : Results)
        → ClosedMembers In m
        → AllRuled In results
        → AllRuled In (in_members validate m results)
    unfolding in_members
    in_members-All no_members results closed hs = hs
    in_members-All (member k v rest) results closed hs =
        let later : ClosedMembers In rest = λ obj w. closed obj (past_member w) in
        if_All (IsRuled In) (bytes_eq k (codes "@graph")) _ _ (in_members-All rest results later hs)
          (if_All (IsRuled In) (leb max_validation_results (length results)) results _ hs (
            in_members-All rest (in_value validate v results) later
              (in_value-All v results (λ obj w. closed obj (at_member w)) hs)))

    pub unless_ended-All :
        (m : Members) (r : Results × Bool)
        → ClosedMembers In m
        → AllRuled In r.0
        → AllRuled In (unless_ended validate m r)
    unfolding unless_ended
    unless_ended-All m (results, true) closed hs = hs
    unless_ended-All m (results, false) closed hs = in_members-All m results closed hs
