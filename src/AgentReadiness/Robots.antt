-- ===== src/AgentReadiness/Robots.antt =====
-- internal/agentreadiness/robots.go.
use seo_crawler_mcp.Prelude.{
  ℕ, Bool, not, ◌&&◌, Option, none, some, List, [], ◌∷◌, ◌++◌, Bytes, codes, bytes_eq, bytes_mem,
  any, keep, take, contains, index_byte, if◌then◌else◌, to_lower, trim_space,
}
use seo_crawler_mcp.Prelude.Split.{split}
use seo_crawler_mcp.AgentReadiness.{pass, warning, fail, bot_access_control, CheckResult, cut_at}
use seo_crawler_mcp.AgentReadiness.Links.{has_any}

pub record RobotsRule : Type 0 where
  pub user_agent : Bytes
  pub rule_type : Bytes
  pub path_pattern : Bytes

unfoldable pub known_ai_bots : List Bytes
known_ai_bots =
    codes "gptbot"
    ∷ codes "chatgpt-user"
    ∷ codes "claudebot"
    ∷ codes "claude-user"
    ∷ codes "perplexitybot"
    ∷ codes "google-extended"
    ∷ codes "applebot-extended"
    ∷ codes "ccbot"
    ∷ codes "anthropic-ai"
    ∷ codes "oai-searchbot"
    ∷ codes "bytespider"
    ∷ codes "meta-externalagent"
    ∷ codes "amazonbot"
    ∷ codes "cohere-ai"
    ∷ codes "youbot"
    ∷ []

unfoldable pub known_content_signal_keys : List Bytes
known_content_signal_keys = codes "ai-input" ∷ codes "ai-train" ∷ codes "search" ∷ []

unfoldable pub is_wildcard : RobotsRule → Bool
is_wildcard rule = bytes_eq (to_lower (trim_space rule.user_agent)) (codes "*")

-- A rule that names a bot, the wildcard being none.
unfoldable pub is_explicit : RobotsRule → Bool
is_explicit rule =
    not (is_wildcard rule)
    && any (λ bot. contains (to_lower (trim_space rule.user_agent)) bot) known_ai_bots

unfoldable pub detect_ai_bot_rules : Bytes → List RobotsRule → CheckResult
detect_ai_bot_rules target_url rules =
    let explicit = has_any (keep is_explicit rules) in
    let wildcard = has_any (keep is_wildcard rules) in
    record {
      category = bot_access_control;
      check_key = codes "ai_bot_rules";
      status = if explicit then pass else if wildcard then warning else fail;
      score = if explicit then 100 else if wildcard then 50 else 0;
      target_url = target_url;
      endpoint = codes "/robots.txt";
      method = codes "GET";
      response_status = none;
      recommendation =
          if explicit
          then []
          else if wildcard
          then codes
              "Wildcard robots.txt rules apply to AI crawlers, but explicit AI bot rules make the policy clearer."
          else codes
              "Add explicit robots.txt rules for AI crawlers so agent access policy is unambiguous.";
    }

pub record ContentSignal : Type 0 where
  pub key : Bytes
  pub value : Bytes

unfoldable pub without_comment : Bytes → Bytes
without_comment line = elim (index_byte line b'#') [
  | none ↦ line
  | some i ↦ trim_space (take i line)
]

unfoldable pub signals_of_items : List Bytes → List ContentSignal
signals_of_items [] = []
signals_of_items (item ∷ items) = elim (cut_at b'=' (trim_space item)) [
  | none ↦ signals_of_items items
  | some (key, val) ↦
      record { key = to_lower (trim_space key); value = to_lower (trim_space val) }
      ∷ signals_of_items items
]

unfoldable pub signals_of_line : Bytes → List ContentSignal
signals_of_line line = elim (cut_at b':' (without_comment (trim_space line))) [
  | none ↦ []
  | some (name, value) ↦
      if bytes_eq (to_lower (trim_space name)) (codes "content-signal")
      then signals_of_items (split b',' value)
      else []
]

unfoldable pub signals_of_lines : List Bytes → List ContentSignal
signals_of_lines [] = []
signals_of_lines (line ∷ lines) = signals_of_line line ++ signals_of_lines lines

unfoldable pub parse_content_signals : Bytes → List ContentSignal
parse_content_signals raw_robots = signals_of_lines (split 10 raw_robots)

unfoldable pub evaluate_content_signals : Bytes → Bytes → Option ℕ → CheckResult
evaluate_content_signals target_url raw_robots response_status =
    let known =
      any (λ signal. bytes_mem signal.key known_content_signal_keys)
        (parse_content_signals raw_robots) in
    record {
      category = bot_access_control;
      check_key = codes "content_signals";
      status = if known then pass else fail;
      score = if known then 100 else 0;
      target_url = target_url;
      endpoint = codes "/robots.txt";
      method = codes "GET";
      response_status = response_status;
      recommendation =
          if known
          then []
          else codes
              "Add Content-Signal directives to robots.txt for ai-train, search, and ai-input preferences.";
    }
