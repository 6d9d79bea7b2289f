-- ===== src/Robots/Rules/Groups.antt =====
-- The group that a user agent falls under, and the decision for a path.
use seo_crawler_mcp.Prelude.{
  ℕ, ◌<◌, ◌≤◌, true, false, Option, none, some, List, [], ◌∷◌, Bytes, codes, length, contains, ◌≡◌,
  ◌≢◌, ◌↔◌, ◌⊎◌, inl, inr, refl, arith, sym, subst, All, Any, here, there, Bool-cases, Option-cases,
  bytes_eq_iff, to_lower,
}
use seo_crawler_mcp.Robots.Rules.{
  AgentGroup, RobotsFile, lookup_group, improves, longest_agent, find_group, group_of, is_allowed,
}
use seo_crawler_mcp.Robots.Rules.Precedence.{Forbids, rules_allow_iff}

-- A named agent that a user agent contains.
abbrev Named : Bytes → Bytes → Type 0
Named ua agent = (agent ≢ codes "*") × (contains ua agent ≡ true) × (0 < length agent)

abbrev best_length : Option (Bytes × ℕ) → ℕ
best_length none = 0
best_length (some (agent, g)) = length agent

improves-Named :
    (ua : Bytes) (n : ℕ) (agent : Bytes)
    → improves ua n agent ≡ true
    → Named ua agent × (n < length agent)
unfolding improves
improves-Named ua n agent h =
    let other : agent ≢ codes "*" = ground (arith, bytes_eq_iff agent (codes "*")) in
    ((other, ground arith, ground arith), ground arith)

not_improves :
    (ua : Bytes) (n : ℕ) (agent : Bytes)
    → improves ua n agent ≡ false
    → Named ua agent
    → length agent ≤ n
unfolding improves
not_improves ua n agent h (other, c, pos) = ground (arith, bytes_eq_iff agent (codes "*"))

abbrev Covers : Bytes → ℕ → List (Bytes × ℕ) → Option (Bytes × ℕ) → Type 0
Covers ua n gs res =
    (n ≤ best_length res) × All (λ e. Named ua e.0 → length e.0 ≤ best_length res) gs

-- The loop keeps the longest: it covers every named agent, and its result is one of them.
module _ (ua : Bytes) where
  taken_step :
      (best : Option (Bytes × ℕ)) (n : ℕ) (agent : Bytes) (g : ℕ) (gs : List (Bytes × ℕ))
      → improves ua n agent ≡ true
      → longest_agent ua best n ((agent, g) ∷ gs)
        ≡ longest_agent ua (some (agent, g)) (length agent) gs
  unfolding longest_agent
  taken_step best n agent g gs h = rw h refl

  skipped_step :
      (best : Option (Bytes × ℕ)) (n : ℕ) (agent : Bytes) (g : ℕ) (gs : List (Bytes × ℕ))
      → improves ua n agent ≡ false
      → longest_agent ua best n ((agent, g) ∷ gs) ≡ longest_agent ua best n gs
  unfolding longest_agent
  skipped_step best n agent g gs h = rw h refl

  longest_agent-Covers :
      (best : Option (Bytes × ℕ)) (n : ℕ) (gs : List (Bytes × ℕ))
      → n ≡ best_length best
      → Covers ua n gs (longest_agent ua best n gs)
  longest_agent-Covers best n [] e = (unfold longest_agent in omega arith, tt)
  longest_agent-Covers best n ((agent, g) ∷ gs) e = elim (Bool-cases (improves ua n agent)) [
    | inl h ↦
        let (low, rest) = longest_agent-Covers (some (agent, g)) (length agent) gs refl in
        subst (Covers ua n ((agent, g) ∷ gs)) (sym (taken_step best n agent g gs h))
          (omega (arith, (improves-Named ua n agent h).1), (λ _. low, rest))
    | inr h ↦
        let (low, rest) = longest_agent-Covers best n gs e in
        subst (Covers ua n ((agent, g) ∷ gs)) (sym (skipped_step best n agent g gs h))
          (low, (λ named. omega (arith, not_improves ua n agent h named), rest))
  ]

  longest_agent-origin :
      (best : Option (Bytes × ℕ)) (n : ℕ) (gs : List (Bytes × ℕ))
      → (longest_agent ua best n gs ≡ best)
        ⊎ Any (λ e. Named ua e.0 × (longest_agent ua best n gs ≡ some e)) gs
  longest_agent-origin best n [] = inl (unfold longest_agent in refl)
  longest_agent-origin best n ((agent, g) ∷ gs) = elim (Bool-cases (improves ua n agent)) [
    | inl h ↦
        rw (taken_step best n agent g gs h)
          (elim (longest_agent-origin (some (agent, g)) (length agent) gs) [
            | inl e ↦ inr (here ((improves-Named ua n agent h).0, e))
            | inr a ↦ inr (there a)
          ])
    | inr h ↦
        rw (skipped_step best n agent g gs h)
          (elim (longest_agent-origin best n gs) [ inl e ↦ inl e | inr a ↦ inr (there a) ])
  ]

-- Which group a user agent (in lower case) falls under.
pub data Falls (ua : Bytes) (gs : List (Bytes × ℕ)) : Option ℕ → Type 0 where
  exactly : {g : ℕ} → lookup_group ua gs ≡ some g → Falls ua gs (some g)
  longest :
      {agent : Bytes} {g : ℕ}
      → lookup_group ua gs ≡ none
      → Any (λ e. Named ua e.0 × (e ≡ (agent, g))) gs
      → All (λ e. Named ua e.0 → length e.0 ≤ length agent) gs
      → Falls ua gs (some g)
  fallback :
      {o : Option ℕ}
      → lookup_group ua gs ≡ none
      → All (λ e. Named ua e.0 → ⊥) gs
      → lookup_group (codes "*") gs ≡ o
      → Falls ua gs o

none_Named :
    (ua : Bytes) (gs : List (Bytes × ℕ))
    → All (λ e. Named ua e.0 → length e.0 ≤ 0) gs
    → All (λ e. Named ua e.0 → ⊥) gs
none_Named ua [] h = tt
none_Named ua (e ∷ gs) h =
    (λ named. absurd (omega (arith, h.0 named, named.2)), none_Named ua gs h.1)

Any-same :
    (ua : Bytes) {o : Option (Bytes × ℕ)} {gs : List (Bytes × ℕ)} (best : Bytes × ℕ)
    → o ≡ some best
    → Any (λ e. Named ua e.0 × (o ≡ some e)) gs
    → Any (λ e. Named ua e.0 × (e ≡ best)) gs
Any-same ua best f (here (named, e)) = here (named, cc (e, f))
Any-same ua best f (there a) = there (Any-same ua best f a)

-- The three returns of findGroup.
module _ (rf : RobotsFile) (ua : Bytes) where
  pub find_exact :
      (g : ℕ) → lookup_group (to_lower ua) rf.groups ≡ some g → find_group rf ua ≡ some g
  unfolding find_group
  find_exact g e = ground arith

  find_longest :
      (best : Bytes × ℕ)
      → lookup_group (to_lower ua) rf.groups ≡ none
      → longest_agent (to_lower ua) none 0 rf.groups ≡ some best
      → find_group rf ua ≡ some best.1
  unfolding find_group
  find_longest best e f = ground arith

  find_fallback :
      lookup_group (to_lower ua) rf.groups ≡ none
      → longest_agent (to_lower ua) none 0 rf.groups ≡ none
      → find_group rf ua ≡ lookup_group (codes "*") rf.groups
  unfolding find_group
  find_fallback e f = ground arith

-- findGroup gives the group of the user agent itself (in lower case) if it has one; or else that of an
-- agent that it contains, not "*" and not empty, where no such agent is longer; or else that of "*",
-- or none.
pub find_group-Falls :
    (rf : RobotsFile) (ua : Bytes) → Falls (to_lower ua) rf.groups (find_group rf ua)
find_group-Falls rf ua = elim (Option-cases (lookup_group (to_lower ua) rf.groups)) [
  | inr (g, e) ↦ rw (find_exact rf ua g e) (exactly e)
  | inl e ↦ elim (Option-cases (longest_agent (to_lower ua) none 0 rf.groups)) [
    | inr (best, f) ↦ rw (find_longest rf ua best e f) (found best e f)
    | inl f ↦ rw (find_fallback rf ua e f) (fallback e (unnamed f) refl)
  ]
]
  where
    covers :
        (res : Option (Bytes × ℕ))
        → longest_agent (to_lower ua) none 0 rf.groups ≡ res
        → Covers (to_lower ua) 0 rf.groups res
    covers res e =
        subst (Covers (to_lower ua) 0 rf.groups) e
          (longest_agent-Covers (to_lower ua) none 0 rf.groups refl)

    found :
        (best : Bytes × ℕ)
        → lookup_group (to_lower ua) rf.groups ≡ none
        → longest_agent (to_lower ua) none 0 rf.groups ≡ some best
        → Falls (to_lower ua) rf.groups (some best.1)
    found best e f = elim (longest_agent-origin (to_lower ua) none 0 rf.groups) [
      | inl z ↦ absurd (cc (z, f))
      | inr a ↦ longest e (Any-same (to_lower ua) best f a) (covers (some best) f).1
    ]

    unnamed :
        longest_agent (to_lower ua) none 0 rf.groups ≡ none
        → All (λ e. Named (to_lower ua) e.0 → ⊥) rf.groups
    unnamed f = none_Named (to_lower ua) rf.groups (covers none f).1

-- A path is refused exactly when the user agent's group has a rule that forbids it.
pub is_allowed_iff :
    (rf : RobotsFile) (ua path : Bytes)
    → (is_allowed rf ua path ≡ false) ↔ (
        (group : AgentGroup) × (group_of rf ua ≡ some group)
        × Any (Forbids path group.rules) group.rules)
unfolding is_allowed
is_allowed_iff rf ua path = elim (Option-cases (group_of rf ua)) [
  | inl e ↦ (λ h. absurd (ground arith), λ (group, f, a). absurd (cc (e, f)))
  | inr (group, e) ↦ (
    λ h. (group, e, (rules_allow_iff group.rules path).0 (ground arith)),
    λ (other, f, a).
        let same : group ≡ other = cc (e, f) in
        let refused = (rules_allow_iff other.rules path).1 a in ground arith,
  )
]
