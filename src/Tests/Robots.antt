-- ===== src/Tests/Robots.antt =====
-- Runs of internal/robots, and its theorems at inputs.
use seo_crawler_mcp.Prelude.{
  true, false, some, List, [], ◌∷◌, ◌++◌, Bytes, codes, has_prefix, bytes_mem, to_lower,
  to_lower_byte, ◌≡◌, ◌↔◌, inr, refl, arith, Any, bytes_eq, index, index_byte, contains, has_suffix,
  trim_right, trim_left, trim_space, is_space,
}
use seo_crawler_mcp.Prelude.Int.{pos}
use seo_crawler_mcp.Prelude.Split.{split, cons_head}
use seo_crawler_mcp.Robots.Match.{
  has_anchor, unanchored, pattern_length, match_parts, match_pattern,
}
use seo_crawler_mcp.Robots.Match.Greedy.{FitsFirst}
use seo_crawler_mcp.Robots.Match.Anchor.{match_pattern_iff, match_anchored_misses}
use seo_crawler_mcp.Robots.Rules.{
  allow, disallow, Rule, RobotsFile, beats, consider, best_rule, verdict, rules_allow, lookup_group,
  improves, longest_agent, find_group, group_of, is_allowed, crawl_delay,
}
use seo_crawler_mcp.Robots.Rules.Precedence.{Forbids, rules_allow_iff}
use seo_crawler_mcp.Robots.Parser.{
  digits_value, signed_value, atoi, field_named, strip_comment, read_line, put_group, update_group,
  directives, add_directives, block_agents, block_group, new_group, join_group, on_user_agent,
  with_group, set_delay, on_rule, step, parse_line, parse_lines, parse, initial, empty_group,
}
use seo_crawler_mcp.Robots.Parser.Blocks.{steps, agent_lines, rule_lines, block-group_of}

matching : Unit {0}
unfolding has_prefix bytes_mem to_lower to_lower_byte bytes_eq index index_byte contains has_suffix
    trim_right trim_left trim_space is_space split cons_head has_anchor unanchored pattern_length
    match_parts match_pattern
matching = tt

match_runs :
    (match_pattern (codes "/a/b.php") (codes "/*.php$") ≡ true)
    × (match_pattern (codes "/a.php/b") (codes "/*.php$") ≡ false)
    × (match_pattern (codes "/a.php.php") (codes "/*.php$") ≡ false)
    × (match_pattern (codes "/private/x") (codes "/private") ≡ true)
unfolding matching
match_runs = (refl, refl, refl, refl)

match_pattern_iff_example :
    (match_pattern (codes "/a/b") (codes "/*b") ≡ true)
    ↔ ((rest : Bytes) × FitsFirst (split b'*' (unanchored (codes "/*b"))) (codes "/a/b") rest)
unfolding matching
match_pattern_iff_example = match_pattern_iff (codes "/a/b") (codes "/*b") refl

match_anchored_misses_example :
    (match_pattern (codes "/aa") (codes "/*a$") ≡ false)
    × FitsFirst (split b'*' (unanchored (codes "/*a$"))) (codes "/aa") []
match_anchored_misses_example = match_anchored_misses b'a' (omega arith)

abbrev mixed : List Rule
mixed =
    record { rule_type = disallow; pattern = codes "/p" }
    ∷ record { rule_type = allow; pattern = codes "/p/ok" }
    ∷ []

rules_run : rules_allow mixed (codes "/p/x") ≡ false
unfolding matching beats consider best_rule verdict rules_allow
rules_run = refl

rules_allow_iff_example :
    (rules_allow mixed (codes "/p/ok/1") ≡ false) ↔ Any (Forbids (codes "/p/ok/1") mixed) mixed
rules_allow_iff_example = rules_allow_iff mixed (codes "/p/ok/1")

parsing : Unit {0}
unfolding matching beats consider best_rule verdict rules_allow lookup_group improves longest_agent
    find_group group_of is_allowed crawl_delay digits_value signed_value atoi field_named
    strip_comment read_line put_group update_group directives add_directives block_agents
    block_group new_group join_group on_user_agent with_group set_delay on_rule step parse_line
    parse_lines parse
parsing = tt

abbrev robots_txt : Bytes
robots_txt =
    codes "User-agent: Bot"
    ++ 10 ∷ codes "user-agent: *"
    ++ 10 ∷ codes "Disallow: /p # private"
    ++ 10 ∷ codes "Allow: /p/ok"
    ++ 10 ∷ codes "Crawl-delay: 5"
    ++ 10 ∷ codes "User-agent: goog"
    ++ 10 ∷ codes "Disallow:"

parse_runs :
    (is_allowed (parse robots_txt) (codes "BOT") (codes "/p/1") ≡ false)
    × (is_allowed (parse robots_txt) (codes "mybot") (codes "/p/ok") ≡ true)
    × (is_allowed (parse robots_txt) (codes "other") (codes "/p") ≡ false)
    × (is_allowed (parse robots_txt) (codes "Google") (codes "/p") ≡ true)
    × (crawl_delay (parse robots_txt) (codes "bot") ≡ pos 5)
unfolding parsing
parse_runs = (refl, refl, refl, refl, refl)

abbrev parsed : RobotsFile
parsed = record {
  rules = [];
  sitemaps = [];
  groups = (codes "bot", 0) ∷ (codes "botany", 1) ∷ (codes "*", 0) ∷ [];
  store = empty_group ∷ empty_group ∷ [];
}

block-group_of_example :
    group_of
      (steps (agent_lines (codes "Bot" ∷ codes "Spider" ∷ []) ++ rule_lines mixed) initial).file
      (codes "SPIDER")
    ≡ some (record empty_group { rules = mixed })
unfolding matching
block-group_of_example =
    block-group_of (codes "Bot") (codes "Spider" ∷ []) mixed initial (codes "SPIDER") (inr refl)
      (refl, (refl, tt)) refl
