-- ===== src/Robots/Parser/Blocks.antt =====
-- What a block of lines does: one group for all its agents, with its rules in their order.
use seo_crawler_mcp.Prelude.{
  ℕ, true, false, none, some, List, [], ◌∷◌, ◌++◌, Bytes, is_empty, length, map, set, get_elem?,
  if◌then◌else◌, ◌≡◌, ◌⊎◌, refl, ◌∙◌, arith, ap, subst, All, bytes_eq, bytes_mem, bytes_eq_iff,
  to_lower,
}
use mathlib.Core.List.{append_assoc, append-nil}
use seo_crawler_mcp.Robots.Rules.{
  RuleType, allow, disallow, Rule, AgentGroup, lookup_group, group_of,
}
use seo_crawler_mcp.Robots.Rules.Groups.{find_exact}
use seo_crawler_mcp.Robots.Parser.{
  ParseState, Field, user_agent, disallow_path, allow_path, empty_group, put_group, update_group,
  add_rule, with_group, on_rule, on_user_agent, block_group, new_group, join_group, step,
  add_directives,
}

abbrev pub steps : List (Field × Bytes) → ParseState → ParseState
steps [] s = s
steps ((f, value) ∷ ls) s = steps ls (step f value s)

steps-append :
    (ls ms : List (Field × Bytes)) (s : ParseState) → steps (ls ++ ms) s ≡ steps ms (steps ls s)
steps-append [] ms s = refl
steps-append ((f, value) ∷ ls) ms s = steps-append ls ms (step f value s)

abbrev pub agent_lines : List Bytes → List (Field × Bytes)
agent_lines [] = []
agent_lines (ua ∷ uas) = (user_agent, ua) ∷ agent_lines uas

abbrev rule_field : RuleType → Field
rule_field allow = allow_path
rule_field disallow = disallow_path

abbrev pub rule_lines : List Rule → List (Field × Bytes)
rule_lines [] = []
rule_lines (r ∷ rs) = (rule_field r.rule_type, r.pattern) ∷ rule_lines rs

abbrev pub put_all : List Bytes → ℕ → List (Bytes × ℕ) → List (Bytes × ℕ)
put_all [] g gs = gs
put_all (ua ∷ uas) g gs = put_all uas g (put_group (to_lower ua) g gs)

-- Inside a block: the current group is the last cell.
record Inside (before : List AgentGroup) (a : AgentGroup) (gs : List (Bytes × ℕ)) (s : ParseState)
    : Type 0 where
  current : s.current_group ≡ some (length before)
  last : s.file.store ≡ before ++ a ∷ []
  names : s.file.groups ≡ gs

get_elem?-last :
    (before : List AgentGroup) (a : AgentGroup)
    → get_elem? (before ++ a ∷ []) (length before) ≡ some a
get_elem?-last [] a = refl
get_elem?-last (b ∷ before) a = get_elem?-last before a

set-last :
    (before : List AgentGroup) (a b : AgentGroup)
    → set (before ++ a ∷ []) (length before) b ≡ before ++ b ∷ []
set-last [] a b = refl
set-last (c ∷ before) a b = ap (◌∷◌ c) (set-last before a b)

update_group-last :
    (before : List AgentGroup) (a : AgentGroup) (f : AgentGroup → AgentGroup)
    → update_group (length before) f (before ++ a ∷ []) ≡ before ++ f a ∷ []
unfolding update_group
update_group-last before a f = rw (get_elem?-last before a, update_group) (set-last before a (f a))

module _ (before : List AgentGroup) where
  open_block :
      (ua : Bytes) (s : ParseState)
      → (s.had_rule ≡ true) ⊎ (s.current_group ≡ none)
      → s.file.store ≡ before
      → Inside before empty_group
          (put_group (to_lower ua) (length before) s.file.groups)
          (step user_agent ua s)
        × ((step user_agent ua s).had_rule ≡ false)
  unfolding step on_user_agent block_group new_group join_group
  open_block ua s h e = ground arith

  next_agent :
      (ua : Bytes) (a : AgentGroup) (gs : List (Bytes × ℕ)) (s : ParseState)
      → Inside before a gs s
      → s.had_rule ≡ false
      → Inside before a (put_group (to_lower ua) (length before) gs) (step user_agent ua s)
        × ((step user_agent ua s).had_rule ≡ false)
  unfolding step on_user_agent block_group new_group join_group
  next_agent ua a gs s i h = ground arith

  next_rule :
      (t : RuleType) (v : Bytes) (a : AgentGroup) (gs : List (Bytes × ℕ)) (s : ParseState)
      → Inside before a gs s
      → is_empty v ≡ false
      → Inside before (add_rule t v a) gs (step (rule_field t) v s)
  unfolding step with_group on_rule add_directives
  next_rule allow v a gs s i n = ground (arith, update_group-last before a (add_rule allow v))
  next_rule disallow v a gs s i n = ground (arith, update_group-last before a (add_rule disallow v))

  more_agents :
      (uas : List Bytes) (a : AgentGroup) (gs : List (Bytes × ℕ)) (s : ParseState)
      → Inside before a gs s
      → s.had_rule ≡ false
      → Inside before a (put_all uas (length before) gs) (steps (agent_lines uas) s)
  more_agents [] a gs s i h = i
  more_agents (ua ∷ uas) a gs s i h =
      let (j, k) = next_agent ua a gs s i h in
      more_agents uas a (put_group (to_lower ua) (length before) gs) (step user_agent ua s) j k

  more_rules :
      (rs : List Rule) (a : AgentGroup) (gs : List (Bytes × ℕ)) (s : ParseState)
      → Inside before a gs s
      → All (λ r. is_empty r.pattern ≡ false) rs
      → Inside before (record a { rules = a.rules ++ rs }) gs (steps (rule_lines rs) s)
  more_rules [] a gs s i h = rw (append-nil a.rules) i
  more_rules (r ∷ rs) a gs s i h =
      let j = next_rule r.rule_type r.pattern a gs s i h.0 in
      let k = more_rules rs _ gs _ j h.1 in
      subst (λ l. Inside before (record a { rules = l }) gs (steps (rule_lines (r ∷ rs)) s))
        (append_assoc a.rules (r ∷ []) rs) k

-- Lines that name agents and then give rules, after a rule of the block before or at the start:
-- one new group, behind those that there were, has exactly these rules in their order, every agent
-- (in lower case) is mapped to it, and the other cells of the store stay.
pub block_lem :
    (ua : Bytes) (uas : List Bytes) (rs : List Rule) (s : ParseState)
    → (s.had_rule ≡ true) ⊎ (s.current_group ≡ none)
    → All (λ r. is_empty r.pattern ≡ false) rs
    → let t = steps (agent_lines (ua ∷ uas) ++ rule_lines rs) s in
      (t.file.store ≡ s.file.store ++ record empty_group { rules = rs } ∷ [])
      × (t.file.groups ≡ put_all (ua ∷ uas) (length s.file.store) s.file.groups)
block_lem ua uas rs s h n =
    let (i, k) = open_block s.file.store ua s h refl in
    let j = more_agents s.file.store uas empty_group _ (step user_agent ua s) i k in
    let m = more_rules s.file.store rs empty_group _ (steps (agent_lines (ua ∷ uas)) s) j n in
    rw (steps-append (agent_lines (ua ∷ uas)) (rule_lines rs) s) (m.last, m.names)

lookup-put_group :
    (k ua : Bytes) (g : ℕ) (gs : List (Bytes × ℕ))
    → lookup_group k (put_group ua g gs) ≡ (if bytes_eq ua k then some g else lookup_group k gs)
unfolding lookup_group put_group
lookup-put_group k ua g [] = refl
lookup-put_group k ua g ((agent, h) ∷ gs) = ground (
  arith,
  lookup-put_group k ua g gs,
  bytes_eq_iff agent ua,
  bytes_eq_iff agent k,
  bytes_eq_iff ua k,
)

-- In such a block's map, an agent of the block has the block's group, another the one it had.
pub lookup-put_all :
    (k : Bytes) (uas : List Bytes) (g : ℕ) (gs : List (Bytes × ℕ))
    → lookup_group k (put_all uas g gs)
      ≡ (if bytes_mem k (map to_lower uas) then some g else lookup_group k gs)
unfolding bytes_mem
lookup-put_all k [] g gs = refl
lookup-put_all k (ua ∷ uas) g gs = ground (
  arith,
  lookup-put_all k uas g (put_group (to_lower ua) g gs),
  lookup-put_group k (to_lower ua) g gs,
  bytes_eq_iff k (to_lower ua),
  bytes_eq_iff (to_lower ua) k,
)

-- After the block, each of its agents, in any letter case, falls under a group with exactly the
-- block's rules.
pub block-group_of :
    (ua : Bytes) (uas : List Bytes) (rs : List Rule) (s : ParseState) (who : Bytes)
    → (s.had_rule ≡ true) ⊎ (s.current_group ≡ none)
    → All (λ r. is_empty r.pattern ≡ false) rs
    → bytes_mem (to_lower who) (map to_lower (ua ∷ uas)) ≡ true
    → group_of (steps (agent_lines (ua ∷ uas) ++ rule_lines rs) s).file who
      ≡ some (record empty_group { rules = rs })
unfolding group_of
block-group_of ua uas rs s who h n m =
    let t = steps (agent_lines (ua ∷ uas) ++ rule_lines rs) s in
    let (stored, mapped) = block_lem ua uas rs s h n in
    let at : lookup_group (to_lower who) t.file.groups ≡ some (length s.file.store) =
      ap (lookup_group (to_lower who)) mapped
      ∙ lookup-put_all (to_lower who) (ua ∷ uas) (length s.file.store) s.file.groups
      ∙ rw m refl in
    rw (find_exact t.file who (length s.file.store) at, group_of)
      (ap (λ store. get_elem? store (length s.file.store)) stored
        ∙ get_elem?-last s.file.store (record empty_group { rules = rs }))
