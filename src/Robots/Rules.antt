-- ===== src/Robots/Rules.antt =====
-- The precedence of rules, and the group of a user agent (internal/robots/parser.go: IsAllowed,
-- CrawlDelay, findGroup). A group is a cell of a store, since several agents share one.
pub mod Precedence
pub mod Groups
use seo_crawler_mcp.Prelude.{
  ℕ, ◌+◌, ◌<◌, Bool, true, false, not, ◌&&◌, ◌||◌, Option, none, some, List, [], ◌∷◌, Bytes, codes,
  is_empty, length, get_elem?, if◌then◌else◌, ltb, ◌==◌, bytes_eq, contains, to_lower,
}
use seo_crawler_mcp.Prelude.Int.{ℤ, pos}
use seo_crawler_mcp.Robots.Match.{pattern_length, match_pattern}

pub data RuleType : Type 0 where
  allow disallow : RuleType

pub record Rule : Type 0 where
  pub rule_type : RuleType
  pub pattern : Bytes

pub record AgentGroup : Type 0 where
  pub rules : List Rule
  pub crawl_delay : ℤ

-- `Directive`, of the exported list of rules.
pub record Directive : Type 0 where
  pub user_agent : Bytes
  pub rule_type : Bytes
  pub path_pattern : Bytes

-- `groups` maps an agent to a cell of `store`; its order is the order in which Go walks the map.
pub record RobotsFile : Type 0 where
  pub rules : List Directive
  pub sitemaps : List Bytes
  pub groups : List (Bytes × ℕ)
  pub store : List AgentGroup

abbrev pub is_allow : RuleType → Bool
is_allow allow = true
is_allow disallow = false

-- The best rule so far with its length; `none` is the nil rule with length -1.
abbrev pub Best : Type 0
Best = Option (Rule × ℕ)

unfoldable pub beats : ℕ → Rule → Best → Bool
beats n r none = true
beats n r (some (b, m)) = ltb m n || (n == m && is_allow r.rule_type)

unfoldable pub consider : Bytes → Best → Rule → Best
consider path best r =
    let n = pattern_length r.pattern in
    if not (match_pattern path r.pattern)
    then best
    else if beats n r best
    then some (r, n)
    else best

unfoldable pub best_rule : Bytes → Best → List Rule → Best
best_rule path best [] = best
best_rule path best (r ∷ rs) = best_rule path (consider path best r) rs

unfoldable pub verdict : Best → Bool
verdict none = true
verdict (some (r, n)) = is_allow r.rule_type

unfoldable pub rules_allow : List Rule → Bytes → Bool
rules_allow [] path = true
rules_allow (r ∷ rs) path = verdict (best_rule path none (r ∷ rs))

unfoldable pub lookup_group : Bytes → List (Bytes × ℕ) → Option ℕ
lookup_group ua [] = none
lookup_group ua ((agent, g) ∷ gs) =
    let rest = lookup_group ua gs in if bytes_eq agent ua then some g else rest

unfoldable pub improves : Bytes → ℕ → Bytes → Bool
improves ua best_len agent =
    if bytes_eq agent (codes "*") then false else contains ua agent && ltb best_len (length agent)

-- The loop over the agents: the longest that the user agent contains, other than "*".
unfoldable pub longest_agent :
    Bytes → Option (Bytes × ℕ) → ℕ → List (Bytes × ℕ) → Option (Bytes × ℕ)
longest_agent ua best best_len [] = best
longest_agent ua best best_len ((agent, g) ∷ gs) =
    let skipped = longest_agent ua best best_len gs in
    let taken = longest_agent ua (some (agent, g)) (length agent) gs in
    if improves ua best_len agent then taken else skipped

unfoldable pub find_group : RobotsFile → Bytes → Option ℕ
find_group rf ua =
    let lower = to_lower ua in
    elim (lookup_group lower rf.groups) [
      | some g ↦ some g
      | none ↦ elim (longest_agent lower none 0 rf.groups) [
        | some (agent, g) ↦ some g
        | none ↦ lookup_group (codes "*") rf.groups
      ]
    ]

unfoldable pub group_of : RobotsFile → Bytes → Option AgentGroup
group_of rf ua = elim (find_group rf ua) [ none ↦ none | some g ↦ get_elem? rf.store g ]

unfoldable pub is_allowed : RobotsFile → Bytes → Bytes → Bool
is_allowed rf ua path = elim (group_of rf ua) [
  | none ↦ true
  | some group ↦ rules_allow group.rules path
]

unfoldable pub crawl_delay : RobotsFile → Bytes → ℤ
crawl_delay rf ua = elim (group_of rf ua) [ none ↦ pos 0 | some group ↦ group.crawl_delay ]
