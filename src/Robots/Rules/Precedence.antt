-- ===== src/Robots/Rules/Precedence.antt =====
-- The longest matching rule decides, and among the longest an allowing one.
use seo_crawler_mcp.Prelude.{
  ℕ, ◌+◌, ◌*◌, ◌<◌, ◌≤◌, true, false, none, some, List, [], ◌∷◌, Bytes, ◌≡◌, ◌↔◌, ◌⊎◌, inl, inr,
  refl, ◌∙◌, arith, sym, subst, All, Any, here, there, Any-All, Bool-cases,
}
use seo_crawler_mcp.Robots.Match.{pattern_length, match_pattern}
use seo_crawler_mcp.Robots.Rules.{
  RuleType, allow, disallow, Rule, Best, beats, consider, best_rule, verdict, rules_allow,
}

-- A number that orders rules by length, then by whether they allow; 0 for no rule.
abbrev rank : RuleType → ℕ → ℕ
rank allow n = 2 * n + 2
rank disallow n = 2 * n + 1

abbrev rank_best : Best → ℕ
rank_best none = 0
rank_best (some (r, n)) = rank r.rule_type n

abbrev rank_of : Rule → ℕ
rank_of r = rank r.rule_type (pattern_length r.pattern)

abbrev Matches : Bytes → Rule → Type 0
Matches path r = match_pattern path r.pattern ≡ true

beats-rank :
    (n : ℕ) (r : Rule) (best : Best)
    → ((beats n r best ≡ true) × (rank_best best ≤ rank r.rule_type n))
      ⊎ ((beats n r best ≡ false) × (rank r.rule_type n ≤ rank_best best))
unfolding beats
beats-rank n r none = inl (refl, omega arith)
beats-rank n r (some (b, m)) = elim (Bool-cases (beats n r (some (b, m)))) [
  | inl e ↦ inl (e, ground arith)
  | inr e ↦ inr (e, ground arith)
]

module _ (path : Bytes) (best : Best) (r : Rule) where
  consider-grows : rank_best best ≤ rank_best (consider path best r)
  unfolding consider
  consider-grows = ground (arith, beats-rank (pattern_length r.pattern) r best)

  consider-covers : Matches path r → rank_of r ≤ rank_best (consider path best r)
  unfolding consider
  consider-covers m = ground (arith, beats-rank (pattern_length r.pattern) r best)

  consider-origin :
      (consider path best r ≡ best)
      ⊎ (Matches path r × (consider path best r ≡ some (r, pattern_length r.pattern)))
  unfolding consider
  consider-origin = ground arith

best_rule-grows :
    (path : Bytes) (best : Best) (rs : List Rule)
    → rank_best best ≤ rank_best (best_rule path best rs)
unfolding best_rule
best_rule-grows path best [] = omega arith
best_rule-grows path best (r ∷ rs) =
    omega (arith, consider-grows path best r, best_rule-grows path (consider path best r) rs)

best_rule-covers :
    (path : Bytes) (best : Best) (rs : List Rule)
    → All (λ r. Matches path r → rank_of r ≤ rank_best (best_rule path best rs)) rs
unfolding best_rule
best_rule-covers path best [] = tt
best_rule-covers path best (r ∷ rs) = (
  λ m. omega (arith, consider-covers path best r m, best_rule-grows path (consider path best r) rs),
  best_rule-covers path (consider path best r) rs,
)

best_rule-origin :
    (path : Bytes) (best : Best) (rs : List Rule)
    → (best_rule path best rs ≡ best)
      ⊎ Any (λ r. Matches path r × (best_rule path best rs ≡ some (r, pattern_length r.pattern))) rs
unfolding best_rule
best_rule-origin path best [] = inl refl
best_rule-origin path best (r ∷ rs) = elim (best_rule-origin path (consider path best r) rs) [
  | inr a ↦ inr (there a)
  | inl e ↦ elim (consider-origin path best r) [
    | inl f ↦ inl (e ∙ f)
    | inr (m, f) ↦ inr (here (m, e ∙ f))
  ]
]

-- A rule that forbids the path: it matches, and is longer than every matching rule that allows it.
abbrev pub Forbids : Bytes → List Rule → Rule → Type 0
Forbids path rules d =
    (d.rule_type ≡ disallow)
    × (match_pattern path d.pattern ≡ true)
    × All
        (λ r.
          match_pattern path r.pattern ≡ true
          → r.rule_type ≡ allow
          → pattern_length r.pattern < pattern_length d.pattern)
        rules

rules_allow_lem :
    (rules : List Rule) (path : Bytes)
    → rules_allow rules path ≡ verdict (best_rule path none rules)
unfolding rules_allow best_rule verdict
rules_allow_lem [] path = refl
rules_allow_lem (r ∷ rs) path = refl

verdict-false :
    (best : Best)
    → verdict best ≡ false
    → (r : Rule) × (n : ℕ) × (best ≡ some (r, n)) × (r.rule_type ≡ disallow)
unfolding verdict
verdict-false none h = absurd (cc h)
verdict-false (some (r, n)) h = (r, n, refl, ground arith)

shorter :
    (d r : Rule)
    → d.rule_type ≡ disallow
    → rank_of r ≤ rank_of d
    → r.rule_type ≡ allow
    → pattern_length r.pattern < pattern_length d.pattern
shorter d r e h a = ground arith

weaken :
    (path : Bytes) (d : Rule) (rules : List Rule)
    → d.rule_type ≡ disallow
    → All (λ r. Matches path r → rank_of r ≤ rank_of d) rules
    → All
        (λ r.
          Matches path r
          → r.rule_type ≡ allow
          → pattern_length r.pattern < pattern_length d.pattern)
        rules
weaken path d [] e h = tt
weaken path d (r ∷ rs) e h = (λ m a. shorter d r e (h.0 m) a, weaken path d rs e h.1)

Any-map : {P Q : Rule → Type 0} {rs : List Rule} → ((r : Rule) → P r → Q r) → Any P rs → Any Q rs
Any-map f (here {x} p) = here (f x p)
Any-map f (there a) = there (Any-map f a)

forbidden :
    (rules : List Rule) (path : Bytes)
    → rules_allow rules path ≡ false
    → Any (Forbids path rules) rules
forbidden rules path h =
    let (d, n, e, dis) =
      verdict-false (best_rule path none rules) (sym (rules_allow_lem rules path) ∙ h) in
    elim (best_rule-origin path none rules) [
      | inl none_found ↦ absurd (cc (none_found, e))
      | inr a ↦
          Any-map
            (λ r (m, f).
              let same : d ≡ r = cc (e, f) in
              let dis' : r.rule_type ≡ disallow = rw (← same) dis in
              (
                dis',
                m,
                weaken path r rules dis' (
                    subst (λ best. All (λ q. Matches path q → rank_of q ≤ rank_best best) rules) f
                      (best_rule-covers path none rules)),
              ))
            a
    ]

-- The best rule is a matching one, at its own length.
best_rule-some :
    (path : Bytes) (rules : List Rule)
    → (best_rule path none rules ≡ none)
      ⊎ Any
          (λ r. Matches path r × (best_rule path none rules ≡ some (r, pattern_length r.pattern)))
          rules
best_rule-some path rules = best_rule-origin path none rules

rank-none : (d : Rule) (best : Best) → rank_of d ≤ rank_best best → best ≡ none → ⊥
rank-none d best h e = ground arith

rank-decides :
    (d r : Rule) (best : Best)
    → d.rule_type ≡ disallow
    → rank_of d ≤ rank_best best
    → best ≡ some (r, pattern_length r.pattern)
    → (r.rule_type ≡ allow → pattern_length r.pattern < pattern_length d.pattern)
    → verdict best ≡ false
unfolding verdict
rank-decides d r best dis h e short = ground arith

allowed_not :
    (rules : List Rule) (path : Bytes)
    → Any (Forbids path rules) rules
    → rules_allow rules path ≡ false
allowed_not rules path a =
    let (d, (dis, m, longest), covered) = Any-All _ _ a (best_rule-covers path none rules) in
    rules_allow_lem rules path ∙ elim (best_rule-some path rules) [
      | inl e ↦ absurd (rank-none d _ (covered m) e)
      | inr b ↦
          let (r, (mr, e), short) = Any-All _ _ b longest in
          rank-decides d r _ dis (covered m) e (short mr)
    ]

-- A group's rules forbid a path exactly when one of them is a disallow rule that matches it and is
-- longer, its anchor not counted, than every allow rule of the group that matches.
pub rules_allow_iff :
    (rules : List Rule) (path : Bytes)
    → (rules_allow rules path ≡ false) ↔ Any (Forbids path rules) rules
rules_allow_iff rules path = (forbidden rules path, λ a. allowed_not rules path a)
