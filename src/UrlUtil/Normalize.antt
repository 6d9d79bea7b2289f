-- ===== src/UrlUtil/Normalize.antt =====
-- Normalize and its helpers (internal/urlutil/normalize.go). `net/url`'s parser is the argument
-- `parse` of what calls it: its result is the record `Url`, one field for each field or method that
-- the crawler reads.
pub mod Schemes
pub mod Canonical
use seo_crawler_mcp.Prelude.{
  is_empty, ℕ, ◌<◌, zero, suc, Bool, true, false, not, ◌&&◌, ◌||◌, Option, none, some, List, [],
  ◌∷◌, ◌++◌, Bytes, codes, leb, ltb, ◌==◌, if◌then◌else◌, length, take, keep, any, bytes_eq,
  has_prefix, index_byte, to_lower,
}
use seo_crawler_mcp.Prelude.Result.{Result, ok, err, ◌>>=◌, ◌>>◌, require}
use seo_crawler_mcp.UrlUtil.Percent.{normalize_percent_encoding}

pub record Url : Type 0 where
  pub scheme : Bytes
  pub host : Bytes  -- with the port
  pub hostname : Bytes
  pub port : Bytes
  pub raw_path : Bytes
  pub path : Bytes
  pub escaped_path : Bytes
  pub raw_query : Bytes
  pub has_user : Bool

abbrev pub Parser : Type 0
Parser = Bytes → Option Url

unfoldable pub is_control : ℕ → Bool
is_control c = c == 9 || c == 10 || c == 13 || c == 0

unfoldable pub sanitize_control_chars : Bytes → Bytes
sanitize_control_chars s = if not (any is_control s) then s else keep (λ c. not (is_control c)) s

unfoldable pub dropped_schemes : List Bytes
dropped_schemes =
    codes "ftp"
    ∷ codes "mailto"
    ∷ codes "javascript"
    ∷ codes "tel"
    ∷ codes "data"
    ∷ codes "file"
    ∷ codes "gopher"
    ∷ codes "dict"
    ∷ codes "ldap"
    ∷ codes "ldaps"
    ∷ codes "sftp"
    ∷ []

-- The first 12 bytes.
unfoldable pub scheme_window : Bytes → Bytes
scheme_window raw = if ltb 12 (length raw) then take 12 raw else raw

unfoldable pub is_dropped_scheme : Bytes → Bool
is_dropped_scheme raw =
    let lower = to_lower (sanitize_control_chars (scheme_window raw)) in
    any (λ scheme. has_prefix lower (scheme ++ b':' ∷ [])) dropped_schemes

pub data NormalizeError : Type 0 where
  unsupported_scheme : Bytes → NormalizeError
  invalid_url : NormalizeError
  missing_scheme : NormalizeError
  missing_host : NormalizeError

-- `defaultPorts`, a map from the scheme: a missing key reads as the empty text.
unfoldable pub default_port : Bytes → Bytes
default_port scheme =
    if bytes_eq scheme (codes "http")
    then codes "80"
    else if bytes_eq scheme (codes "https")
    then codes "443"
    else []

unfoldable pub is_http : Bytes → Bool
is_http scheme = bytes_eq scheme (codes "http") || bytes_eq scheme (codes "https")

-- The host with the port, unless the port is empty or the scheme's own.
unfoldable pub host_with_port : Bytes → Bytes → Bytes → Bytes
host_with_port scheme host port =
    if is_empty port || bytes_eq port (default_port scheme) then host else host ++ b':' ∷ port

-- RawPath, or else Path, or else "/".
unfoldable pub path_source : Url → Bytes
path_source u =
    let path = if is_empty u.raw_path then u.path else u.raw_path in
    if is_empty path then b'/' ∷ [] else path

unfoldable pub normalize_query : Bytes → Bytes
normalize_query q = if is_empty q then q else normalize_percent_encoding false q

unfoldable pub query_suffix : Bytes → Bytes
query_suffix q = if is_empty q then [] else b'?' ∷ q

-- What Normalize does with a parsed URL.
unfoldable pub normalize_parsed : Url → Result NormalizeError Bytes
normalize_parsed u = do
  let scheme = to_lower u.scheme
  require (not (is_empty scheme)) missing_scheme
  require (is_http scheme) (unsupported_scheme scheme)
  let host = to_lower u.hostname
  require (not (is_empty host)) missing_host
  let path = normalize_percent_encoding true (path_source u)
  ok (
      scheme
      ++ codes "://"
      ++ host_with_port scheme host u.port
      ++ path
      ++ query_suffix (normalize_query u.raw_query))

-- A scheme that is dropped before the parser sees the text, if there is text before the colon.
unfoldable pub dropped_prefix : Bytes → Option Bytes
dropped_prefix raw =
    if is_dropped_scheme raw
    then elim (index_byte raw b':') [
      | none ↦ none
      | some zero ↦ none
      | some (suc i) ↦ some (to_lower (take (suc i) raw))
    ]
    else none

unfoldable pub normalize : Parser → Bytes → Result NormalizeError Bytes
normalize parse raw =
    let clean = sanitize_control_chars raw in
    elim (dropped_prefix clean) [
      | some scheme ↦ err (unsupported_scheme scheme)
      | none ↦ elim (parse clean) [ none ↦ err invalid_url | some u ↦ normalize_parsed u ]
    ]
