-- ===== src/UrlUtil/FrontierKey.antt =====
-- FrontierKey, shouldIgnoreParam and PageIdentityKey (internal/urlutil/normalize.go).
pub mod Params
use seo_crawler_mcp.Prelude.{
  is_empty, Bool, ◌||◌, not, Option, none, some, List, [], ◌∷◌, ◌++◌, Bytes, codes, ◌-◌, ◌==◌,
  length, take, keep, if◌then◌else◌, bytes_eq, has_prefix, has_suffix, trim_prefix, trim_right,
  index_byte, to_lower,
}
use seo_crawler_mcp.Prelude.Split.{split, join}
use seo_crawler_mcp.Prelude.Result.{Result, ok, err, ◌>>=◌}
use seo_crawler_mcp.UrlUtil.Normalize.{
  Url, Parser, NormalizeError, invalid_url, normalize, query_suffix,
}

-- A pattern that ends in "*" ignores the keys with the prefix before it, another the key itself.
unfoldable pub ignores : Bytes → Bytes → Bool
ignores key pattern =
    if has_suffix pattern (codes "*")
    then has_prefix key (take (length pattern - 1) pattern)
    else bytes_eq key pattern

unfoldable pub should_ignore_param : Bytes → List Bytes → Bool
should_ignore_param key [] = Bool.false
should_ignore_param key (p ∷ ps) = ignores key p || should_ignore_param key ps

-- The text of a pair before its first "=", or all of it.
unfoldable pub param_key : Bytes → Bytes
param_key pair = elim (index_byte pair b'=') [ none ↦ pair | some i ↦ take i pair ]

unfoldable pub kept_pairs : List Bytes → List Bytes → List Bytes
kept_pairs ignore pairs = keep (λ pair. not (should_ignore_param (param_key pair) ignore)) pairs

abbrev pub no_pairs : List Bytes → Bool
no_pairs [] = Bool.true
no_pairs (_ ∷ _) = Bool.false

unfoldable pub kept_suffix : List Bytes → Bytes
kept_suffix kept = if no_pairs kept then [] else b'?' ∷ join b'&' kept

-- What the key has after the path: the parameters that are kept, behind a "?" if there are any.
unfoldable pub key_query : List Bytes → Bytes → Bytes
key_query ignore q = kept_suffix (kept_pairs ignore (split b'&' q))

unfoldable pub key_of : List Bytes → Bytes → Url → Bytes
key_of ignore normalized u =
    if is_empty u.raw_query
    then normalized
    else u.scheme ++ codes "://" ++ u.host ++ u.path ++ key_query ignore u.raw_query

unfoldable pub reparsed : Parser → (Url → Bytes) → Bytes → Result NormalizeError Bytes
reparsed parse f normalized = elim (parse normalized) [ none ↦ err invalid_url | some u ↦ ok (f u) ]

unfoldable pub frontier_key : Parser → Bytes → List Bytes → Result NormalizeError Bytes
frontier_key parse raw ignore = normalize parse raw >>= λ normalized.
    if no_pairs ignore then ok normalized else reparsed parse (key_of ignore normalized) normalized

-- The path without its trailing slashes; "/" where nothing is left.
unfoldable pub identity_path : Bytes → Bytes
identity_path path =
    let trimmed = trim_right (λ c. c == b'/') path in
    if is_empty trimmed then b'/' ∷ [] else trimmed

unfoldable pub identity_of : Url → Bytes
identity_of u =
    u.scheme
    ++ codes "://"
    ++ trim_prefix (to_lower u.host) (codes "www.")
    ++ identity_path u.escaped_path
    ++ query_suffix u.raw_query

unfoldable pub page_identity_key : Parser → Bytes → Result NormalizeError Bytes
page_identity_key parse raw = normalize parse raw >>= reparsed parse identity_of
