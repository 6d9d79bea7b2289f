-- ===== src/Robots/Parser.antt =====
-- Parse (internal/robots/parser.go): a loop over the lines with the agents of the current block, its
-- group, and whether a rule was seen. The group that the map's entries share is a cell of `store`.
pub mod Blocks
pub mod Shared
use seo_crawler_mcp.Prelude.{
  ℕ, zero, ◌+◌, ◌-◌, ◌*◌, ◌<◌, Bool, true, false, not, ◌&&◌, ◌||◌, Option, none, some, List, [],
  ◌∷◌, ◌++◌, Bytes, codes, is_empty, length, map, get_elem?, set, take, drop, if◌then◌else◌, ltb,
  leb, ◌==◌, bytes_eq, index_byte, to_lower, trim_space,
}
use seo_crawler_mcp.Prelude.Int.{ℤ, pos, neg_ℕ}
use seo_crawler_mcp.Prelude.Split.{split}
use seo_crawler_mcp.Robots.Rules.{
  RuleType, allow, disallow, Rule, AgentGroup, Directive, RobotsFile,
}

pub record ParseState : Type 0 where
  pub file : RobotsFile
  pub current_agents : List Bytes
  pub current_group : Option ℕ
  pub had_rule : Bool

-- strconv.Atoi: an optional sign and decimal digits, in the range of a 64-bit integer.
unfoldable pub digits_value : ℕ → Bytes → Option ℕ
digits_value acc [] = some acc
digits_value acc (c ∷ s) =
    let rest = digits_value (acc * 10 + (c - b'0')) s in
    if leb b'0' c && leb c b'9' then rest else none

abbrev max_int : ℕ
max_int = 9223372036854775807

unfoldable pub signed_value : Bool → Bytes → Option ℤ
signed_value negative digits = if is_empty digits then none else elim (digits_value 0 digits) [
  | none ↦ none
  | some n ↦
      if leb n (if negative then max_int + 1 else max_int)
      then some (if negative then neg_ℕ n else pos n)
      else none
]

unfoldable pub atoi : Bytes → Option ℤ
atoi [] = none
atoi (c ∷ s) =
    if c == b'-'
    then signed_value true s
    else if c == b'+'
    then signed_value false s
    else signed_value false (c ∷ s)

-- What one line says, once its comment and white space are gone.
pub data Field : Type 0 where
  user_agent disallow_path allow_path delay sitemap : Field

unfoldable pub field_named : Bytes → Option Field
field_named name =
    if bytes_eq name (codes "user-agent")
    then some user_agent
    else if bytes_eq name (codes "disallow")
    then some disallow_path
    else if bytes_eq name (codes "allow")
    then some allow_path
    else if bytes_eq name (codes "crawl-delay")
    then some delay
    else if bytes_eq name (codes "sitemap")
    then some sitemap
    else none

unfoldable pub strip_comment : Bytes → Bytes
strip_comment raw = elim (index_byte raw b'#') [ none ↦ raw | some i ↦ take i raw ]

-- The field and its value; `none` for a line that is skipped.
unfoldable pub read_line : Bytes → Option (Field × Bytes)
read_line raw =
    let line = trim_space (strip_comment raw) in
    if is_empty line then none else elim (index_byte line b':') [
      | none ↦ none
      | some i ↦ elim (field_named (to_lower (trim_space (take i line)))) [
        | none ↦ none
        | some f ↦ some (f, trim_space (drop (i + 1) line))
      ]
    ]

abbrev pub empty_group : AgentGroup
empty_group = record { rules = []; crawl_delay = pos 0 }

-- `groups[ua] = g`.
unfoldable pub put_group : Bytes → ℕ → List (Bytes × ℕ) → List (Bytes × ℕ)
put_group ua g [] = (ua, g) ∷ []
put_group ua g ((agent, h) ∷ gs) =
    if bytes_eq agent ua then (agent, g) ∷ gs else (agent, h) ∷ put_group ua g gs

-- `currentGroup.rules = append(…)` and the assignment to its delay, through the shared cell.
unfoldable pub update_group : ℕ → (AgentGroup → AgentGroup) → List AgentGroup → List AgentGroup
update_group g f store = elim (get_elem? store g) [ none ↦ store | some a ↦ set store g (f a) ]

abbrev pub add_rule : RuleType → Bytes → AgentGroup → AgentGroup
add_rule t value a = record a { rules = a.rules ++ record { rule_type = t; pattern = value } ∷ [] }

unfoldable pub directives : Bytes → Bytes → List Bytes → List Directive
directives kind value agents =
    map (λ ua. record { user_agent = ua; rule_type = kind; path_pattern = value }) agents

unfoldable pub add_directives : Bytes → Bytes → List Bytes → RobotsFile → RobotsFile
add_directives kind value agents rf = record rf { rules = rf.rules ++ directives kind value agents }

-- After a rule a user agent begins a new block: with no agents and no group.
unfoldable pub block_agents : ParseState → List Bytes
block_agents s = if s.had_rule then [] else s.current_agents

unfoldable pub block_group : ParseState → Option ℕ
block_group s = if s.had_rule then none else s.current_group

unfoldable pub new_group : Bytes → ParseState → ParseState
new_group ua s = record {
  file = record (s.file) {
    groups = put_group ua (length s.file.store) s.file.groups;
    store = s.file.store ++ empty_group ∷ [];
  };
  current_agents = block_agents s ++ ua ∷ [];
  current_group = some (length s.file.store);
  had_rule = false;
}

unfoldable pub join_group : Bytes → ℕ → ParseState → ParseState
join_group ua g s = record {
  file = record (s.file) { groups = put_group ua g s.file.groups };
  current_agents = block_agents s ++ ua ∷ [];
  current_group = some g;
  had_rule = false;
}

unfoldable pub on_user_agent : Bytes → ParseState → ParseState
on_user_agent value s = elim (block_group s) [
  | none ↦ new_group (to_lower value) s
  | some g ↦ join_group (to_lower value) g s
]

-- A rule of the current group, and the directives that list it.
unfoldable pub with_group : (AgentGroup → AgentGroup) → Bytes → Bytes → ℕ → ParseState → ParseState
with_group f kind value g s = record s {
  had_rule = true;
  file =
      add_directives kind value s.current_agents
        (record (s.file) { store = update_group g f s.file.store });
}

unfoldable pub set_delay : Bytes → AgentGroup → AgentGroup
set_delay value a = elim (atoi value) [ none ↦ a | some d ↦ record a { crawl_delay = d } ]

unfoldable pub on_rule : (ℕ → ParseState → ParseState) → ParseState → ParseState
on_rule f s = elim s.current_group [ none ↦ s | some g ↦ f g s ]

unfoldable pub step : Field → Bytes → ParseState → ParseState
step user_agent value s = on_user_agent value s
step disallow_path value s =
    on_rule
      (λ g t.
        if is_empty value
        then record t { had_rule = true }
        else with_group (add_rule disallow value) (codes "Disallow") value g t)
      s
step allow_path value s = on_rule (with_group (add_rule allow value) (codes "Allow") value) s
step delay value s = on_rule (with_group (set_delay value) (codes "Crawl-delay") value) s
step sitemap value s = record s {
  file = record (s.file) {
    sitemaps = s.file.sitemaps ++ value ∷ [];
    rules =
        s.file.rules
        ++ record { user_agent = []; rule_type = codes "Sitemap"; path_pattern = value } ∷ [];
  };
}

unfoldable pub parse_line : ParseState → Bytes → ParseState
parse_line s raw = elim (read_line raw) [ none ↦ s | some (f, value) ↦ step f value s ]

unfoldable pub parse_lines : ParseState → List Bytes → ParseState
parse_lines s [] = s
parse_lines s (line ∷ lines) = parse_lines (parse_line s line) lines

abbrev pub initial : ParseState
initial = record {
  file = record { rules = []; sitemaps = []; groups = []; store = [] };
  current_agents = [];
  current_group = none;
  had_rule = false;
}

unfoldable pub parse : Bytes → RobotsFile
parse content =
    if is_empty (trim_space content)
    then initial.file
    else (parse_lines initial (split b'\n' content)).file
