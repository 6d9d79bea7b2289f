-- ===== src/AgentReadiness/Links.antt =====
-- internal/agentreadiness/link_header.go. Of the parameters of a link, which are kept only as evidence,
-- only rel has a meaning.
use seo_crawler_mcp.Prelude.{
  ℕ, suc, Bool, true, false, not, Option, none, some, List, [], ◌∷◌, ◌++◌, Bytes, codes, is_empty,
  bytes_eq, bytes_mem, any, keep, map, drop, take, has_prefix, index_byte, ltb, ◌==◌, if◌then◌else◌,
  to_lower, trim_left, trim_right, trim_space,
}
use seo_crawler_mcp.Prelude.Split.{split}
use seo_crawler_mcp.Crawl.{fields}
use seo_crawler_mcp.AgentReadiness.{pass, warning, fail, discoverability, CheckResult, cut_at}

pub record LinkRelation : Type 0 where
  pub uri : Bytes
  pub rels : List Bytes

unfoldable pub useful_link_rels : List Bytes
useful_link_rels =
    codes "api-catalog"
    ∷ codes "service-desc"
    ∷ codes "service-doc"
    ∷ codes "status"
    ∷ codes "mcp"
    ∷ codes "llms-txt"
    ∷ []

-- The parts at the commas outside of quotes; `part` is what was read of the current one.
unfoldable pub split_from : Bool → Bytes → Bytes → List Bytes
split_from in_quote part [] = if is_empty part then [] else part ∷ []
split_from in_quote part (c ∷ s) =
    let turned = split_from (not in_quote) (part ++ c ∷ []) s in
    let ended = split_from in_quote [] s in
    let longer = split_from in_quote (part ++ c ∷ []) s in
    if c == b'"'
    then turned
    else if c == b','
    then (if in_quote then longer else part ∷ ended)
    else longer

unfoldable pub split_header_list : Bytes → List Bytes
split_header_list value = split_from false [] value

-- The relations that a parameter gives: those of rel.
unfoldable pub rels_of_param : Bytes → List Bytes
rels_of_param param = elim (cut_at b'=' (trim_space param)) [
  | none ↦ []
  | some (name, raw) ↦
      let quoteless = trim_right (λ c. c == b'"') (trim_left (λ c. c == b'"') (trim_space raw)) in
      if bytes_eq (to_lower (trim_space name)) (codes "rel")
      then map to_lower (fields quoteless)
      else []
]

unfoldable pub rels_of_params : List Bytes → List Bytes
rels_of_params [] = []
rels_of_params (p ∷ ps) = rels_of_param p ++ rels_of_params ps

-- A part that is not <URI> with parameters is none.
unfoldable pub link_of : Bytes → Option LinkRelation
link_of part = if not (has_prefix part (codes "<")) then none else elim (index_byte part b'>') [
  | none ↦ none
  | some end ↦
      if not (ltb 1 end)
      then none
      else some (record {
        uri = drop 1 (take end part);
        rels = rels_of_params (split b';' (drop (suc end) part));
      })
]

unfoldable pub links_of_parts : List Bytes → List LinkRelation
links_of_parts [] = []
links_of_parts (part ∷ parts) = elim (link_of (trim_space part)) [
  | none ↦ links_of_parts parts
  | some link ↦ link ∷ links_of_parts parts
]

unfoldable pub parse_link_header : List Bytes → List LinkRelation
parse_link_header [] = []
parse_link_header (value ∷ values) =
    links_of_parts (split_header_list value) ++ parse_link_header values

unfoldable pub is_useful : LinkRelation → Bool
is_useful link = any (λ rel. bytes_mem rel useful_link_rels) link.rels

unfoldable pub has_any : {A : Type 0} → List A → Bool
has_any [] = false
has_any (x ∷ xs) = true

unfoldable pub evaluate_link_headers : Bytes → List Bytes → Option ℕ → CheckResult
evaluate_link_headers target_url values status_code =
    let links = parse_link_header values in
    let useful = has_any (keep is_useful links) in
    record {
      category = discoverability;
      check_key = codes "link_headers";
      status = if useful then pass else if has_any links then warning else fail;
      score = if useful then 100 else if has_any links then 50 else 0;
      target_url = target_url;
      endpoint = codes "/";
      method = codes "GET";
      response_status = status_code;
      recommendation =
          if useful
          then []
          else codes
              "Add Link response headers on the homepage pointing to API catalogs, service docs, status, MCP, or llms.txt resources.";
    }
