-- ===== src/Robots/Parser/Shared.antt =====
-- The map of a parsed file points into the store, whatever the text.
use seo_crawler_mcp.Prelude.{
  ℕ, zero, suc, ◌<◌, ◌≤◌, true, Option, some, List, [], ◌∷◌, Bytes, codes, is_empty, length,
  get_elem?, if◌then◌else◌, ◌≡◌, inl, inr, refl, arith, sym, subst, All, Any-All, Bool-cases,
  Option-cases, bytes_eq, to_lower, length-append, length-set, trim_space,
}
use seo_crawler_mcp.Prelude.Split.{split}
use seo_crawler_mcp.Robots.Rules.{disallow, AgentGroup, lookup_group, find_group, group_of}
use seo_crawler_mcp.Robots.Rules.Groups.{Falls, exactly, longest, fallback, find_group-Falls}
use seo_crawler_mcp.Robots.Parser.{
  ParseState, Field, user_agent, disallow_path, allow_path, delay, sitemap, empty_group, put_group,
  update_group, add_rule, with_group, on_rule, on_user_agent, block_group, new_group, join_group,
  step, add_directives, read_line, parse_line, parse_lines, initial, parse,
}

abbrev Points : ℕ → List (Bytes × ℕ) → Type 0
Points n gs = All (λ e. e.1 < n) gs

record IsLinked (s : ParseState) : Type 0 where
  names : Points (length s.file.store) s.file.groups
  current : (g : ℕ) → s.current_group ≡ some g → g < length s.file.store

Points-mono : (m n : ℕ) (gs : List (Bytes × ℕ)) → m ≤ n → Points m gs → Points n gs
Points-mono m n [] h p = tt
Points-mono m n (e ∷ gs) h p = (omega (arith, p.0), Points-mono m n gs h p.1)

put_group-Points :
    (n : ℕ) (ua : Bytes) (g : ℕ) (gs : List (Bytes × ℕ))
    → g < n
    → Points n gs
    → Points n (put_group ua g gs)
unfolding put_group
put_group-Points n ua g [] h p = (h, tt)
put_group-Points n ua g ((agent, k) ∷ gs) h p = elim (Bool-cases (bytes_eq agent ua)) [
  | inl e ↦ rw e (h, p.1)
  | inr e ↦ rw e (p.0, put_group-Points n ua g gs h p.1)
]

length-update_group :
    (g : ℕ) (f : AgentGroup → AgentGroup) (store : List AgentGroup)
    → length (update_group g f store) ≡ length store
unfolding update_group
length-update_group g f store = elim (Option-cases (get_elem? store g)) [
  | inl e ↦ rw (e, update_group) refl
  | inr (a, e) ↦ rw (e, update_group) (length-set store g (f a))
]

new_group-IsLinked : (ua : Bytes) (s : ParseState) → IsLinked s → IsLinked (new_group ua s)
unfolding new_group
new_group-IsLinked ua s h =
    let longer = length-append {0} s.file.store (empty_group ∷ []) in
    record {
      names =
          put_group-Points _ ua (length s.file.store) s.file.groups (omega (arith, longer))
            (Points-mono (length s.file.store) _ s.file.groups (omega (arith, longer)) h.names);
      current = λ g e. ground (arith, longer);
    }

join_group-IsLinked :
    (ua : Bytes) (g : ℕ) (s : ParseState)
    → g < length s.file.store
    → IsLinked s
    → IsLinked (join_group ua g s)
unfolding join_group
join_group-IsLinked ua g s lt h = record {
  names = put_group-Points _ ua g s.file.groups lt h.names;
  current = λ k e. ground arith;
}

block_group-lt :
    (s : ParseState) (g : ℕ) → IsLinked s → block_group s ≡ some g → g < length s.file.store
unfolding block_group
block_group-lt s g h e = h.current g (ground arith)

user_agent-IsLinked : (ua : Bytes) (s : ParseState) → IsLinked s → IsLinked (on_user_agent ua s)
unfolding on_user_agent
user_agent-IsLinked ua s h = elim (Option-cases (block_group s)) [
  | inl e ↦ rw (e, on_user_agent) (new_group-IsLinked (to_lower ua) s h)
  | inr (g, e) ↦
      rw (e, on_user_agent) (join_group-IsLinked (to_lower ua) g s (block_group-lt s g h e) h)
]

with_group-IsLinked :
    (f : AgentGroup → AgentGroup) (kind value : Bytes) (g : ℕ) (s : ParseState)
    → IsLinked s
    → IsLinked (with_group f kind value g s)
unfolding with_group add_directives
with_group-IsLinked f kind value g s h = record {
  names = subst (λ n. Points n s.file.groups) (sym (length-update_group g f s.file.store)) h.names;
  current = λ k e. omega (arith, h.current k e, length-update_group g f s.file.store);
}

on_rule-IsLinked :
    (f : ℕ → ParseState → ParseState) (s : ParseState)
    → ((g : ℕ) → IsLinked (f g s))
    → IsLinked s
    → IsLinked (on_rule f s)
unfolding on_rule
on_rule-IsLinked f s k h = elim (Option-cases s.current_group) [
  | inl e ↦ rw (e, on_rule) h
  | inr (g, e) ↦ rw (e, on_rule) (k g)
]

disallow-IsLinked :
    (value : Bytes) (g : ℕ) (s : ParseState)
    → IsLinked s
    → IsLinked (
        if is_empty value
        then record s { had_rule = true }
        else with_group (add_rule disallow value) (codes "Disallow") value g s)
disallow-IsLinked [] g s h = record { names = h.names; current = h.current }
disallow-IsLinked (c ∷ value) g s h = with_group-IsLinked _ _ (c ∷ value) g s h

step-IsLinked :
    (f : Field) (value : Bytes) (s : ParseState) → IsLinked s → IsLinked (step f value s)
unfolding step
step-IsLinked user_agent value s h = user_agent-IsLinked value s h
step-IsLinked disallow_path value s h = on_rule-IsLinked _ s (λ g. disallow-IsLinked value g s h) h
step-IsLinked allow_path value s h = on_rule-IsLinked _ s (λ g. with_group-IsLinked _ _ _ g s h) h
step-IsLinked delay value s h = on_rule-IsLinked _ s (λ g. with_group-IsLinked _ _ _ g s h) h
step-IsLinked sitemap value s h = record { names = h.names; current = h.current }

lines-IsLinked : (lines : List Bytes) (s : ParseState) → IsLinked s → IsLinked (parse_lines s lines)
unfolding parse_lines parse_line
lines-IsLinked [] s h = h
lines-IsLinked (line ∷ lines) s h = elim (Option-cases (read_line line)) [
  | inl e ↦ rw (e, parse_line) (lines-IsLinked lines s h)
  | inr ((f, value), e) ↦
      rw (e, parse_line) (lines-IsLinked lines (step f value s) (step-IsLinked f value s h))
]

parse-Points : (content : Bytes) → Points (length (parse content).store) (parse content).groups
unfolding parse
parse-Points content = elim (Bool-cases (is_empty (trim_space content))) [
  | inl e ↦ rw e tt
  | inr e ↦
      rw e
        (lines-IsLinked (split b'\n' content) initial
          (record { names = tt; current = λ g f. cc })).names
]

get_elem?-lt :
    (store : List AgentGroup) (g : ℕ)
    → g < length store
    → (a : AgentGroup) × (get_elem? store g ≡ some a)
get_elem?-lt [] g h = absurd (omega arith)
get_elem?-lt (a ∷ store) zero h = (a, refl)
get_elem?-lt (a ∷ store) (suc g) h = get_elem?-lt store g (omega arith)

lookup_group-lt :
    (n : ℕ) (k : Bytes) (gs : List (Bytes × ℕ)) (g : ℕ)
    → Points n gs
    → lookup_group k gs ≡ some g
    → g < n
unfolding lookup_group
lookup_group-lt n k [] g p h = cc
lookup_group-lt n k ((agent, j) ∷ gs) g p h = elim (Bool-cases (bytes_eq agent k)) [
  | inl e ↦ ground arith
  | inr e ↦ lookup_group-lt n k gs g p.1 (rw e at h)
]

Falls-lt :
    (n : ℕ) (ua : Bytes) (gs : List (Bytes × ℕ)) (o : Option ℕ) (g : ℕ)
    → Points n gs
    → Falls ua gs o
    → o ≡ some g
    → g < n
Falls-lt n ua gs o g p (exactly e) s = lookup_group-lt n ua gs g p (cc (e, s))
Falls-lt n ua gs o g p (longest {agent} _ a _) s =
    let (e, (named, same), lt) = Any-All _ _ a p in ground arith
Falls-lt n ua gs o g p (fallback _ _ e) s = lookup_group-lt n (codes "*") gs g p (cc (e, s))

-- In a parsed file, of any text, the group found for a user agent is a cell of the store.
parse-find_group :
    (content ua : Bytes) (g : ℕ)
    → find_group (parse content) ua ≡ some g
    → (a : AgentGroup) × (group_of (parse content) ua ≡ some a)
unfolding group_of
parse-find_group content ua g e =
    let lt =
      Falls-lt _ (to_lower ua) (parse content).groups _ g (parse-Points content)
        (find_group-Falls (parse content) ua) e in
    let (a, f) = get_elem?-lt (parse content).store g lt in (a, rw (e, group_of) f)
