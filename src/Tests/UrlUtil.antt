-- ===== src/Tests/UrlUtil.antt =====
-- Runs of internal/urlutil, and its theorems at inputs.
use seo_crawler_mcp.Prelude.{
  is_empty, true, false, Option, none, some, List, [], ◌∷◌, ◌++◌, Bytes, codes, map, has_prefix,
  bytes_mem, to_lower, to_lower_byte, ◌≡◌, ◌↔◌, ◌⊎◌, refl, arith, bytes_eq, index, index_byte,
  has_suffix, trim_right, trim_left, trim_space, is_space, if◌then◌else◌,
}
use seo_crawler_mcp.Prelude.Result.{ok}
use seo_crawler_mcp.Prelude.Split.{split, join, cons_head}
use seo_crawler_mcp.UrlUtil.Percent.{
  is_unreserved, hex_val, decode_pair, encode_byte, write_triplet, normalize_percent_encoding,
}
use seo_crawler_mcp.UrlUtil.Percent.Tokens.{
  Token, lit, enc, Spells, done, plain, triplet, print, reduce, normalize_Spells,
}
use seo_crawler_mcp.UrlUtil.Percent.Keep.{normalize_not_idem}
use seo_crawler_mcp.UrlUtil.Normalize.{
  Url, Parser, is_control, sanitize_control_chars, dropped_schemes, scheme_window,
  is_dropped_scheme, default_port, is_http, host_with_port, path_source, normalize_query,
  query_suffix, normalize_parsed, dropped_prefix, normalize,
}
use seo_crawler_mcp.UrlUtil.Normalize.Canonical.{
  default, of_http, left_out, as_written, decoded_only, normalize_same,
}
use seo_crawler_mcp.UrlUtil.FrontierKey.{
  ignores, should_ignore_param, param_key, kept_pairs, kept_suffix, key_query, key_of, reparsed,
  frontier_key,
}
use seo_crawler_mcp.UrlUtil.Trap.{count_repeats, repeats, has_repeated_path_segments}
use seo_crawler_mcp.UrlUtil.Scope.{
  exact_host, ScopeChecker, is_bracket, normalize_host, new_scope_checker, is_in_scope,
  is_in_scope_iff, InBoundary,
}

-- What a test unfolds.
percent : Unit {0}
unfolding hex_val decode_pair is_unreserved encode_byte write_triplet normalize_percent_encoding
percent = tt

percent_runs :
    (normalize_percent_encoding true (codes "/%7Euser/%2f%zz") ≡ codes "/~user/%2F%zz")
    × (normalize_percent_encoding false (codes "q=%7euser") ≡ codes "q=%7Euser")
unfolding percent
percent_runs = (refl, refl)

tilde_slash : Spells (codes "a%7e%2f") (lit b'a' ∷ enc b'~' ∷ enc b'/' ∷ [])
unfolding percent
tilde_slash = plain (omega arith) (triplet refl (triplet refl done))

normalize_Spells_example :
    normalize_percent_encoding true (codes "a%7e%2f")
    ≡ print (map (reduce true) (lit b'a' ∷ enc b'~' ∷ enc b'/' ∷ []))
normalize_Spells_example = normalize_Spells true tilde_slash

-- "%%341" becomes "%41" and then "A".
normalize_not_idem_example :
    (normalize_percent_encoding true (codes "%%341") ≡ codes "%41")
    × (normalize_percent_encoding true (codes "%41") ≡ codes "A")
unfolding percent
normalize_not_idem_example =
    normalize_not_idem b'3' b'4' b'4' b'1' b'A' refl refl refl refl (omega arith)

normal : Unit {0}
unfolding percent has_prefix bytes_mem to_lower to_lower_byte bytes_eq index index_byte is_control
    sanitize_control_chars dropped_schemes scheme_window is_dropped_scheme default_port is_http
    host_with_port path_source normalize_query query_suffix normalize_parsed dropped_prefix
    normalize
normal = tt

abbrev upper : Url
upper = record {
  scheme = codes "HTTP";
  host = codes "Example.COM:80";
  hostname = codes "Example.COM";
  port = codes "80";
  raw_path = codes "/%7ea";
  path = codes "/~a";
  escaped_path = codes "/%7ea";
  raw_query = codes "q=%2f";
  has_user = false;
}

abbrev lower : Url
lower = record {
  scheme = codes "http";
  host = codes "example.com";
  hostname = codes "example.com";
  port = [];
  raw_path = [];
  path = codes "/~a";
  escaped_path = codes "/~a";
  raw_query = codes "q=%2F";
  has_user = false;
}

-- A parser of two texts.
abbrev two_urls : Parser
two_urls raw =
    if bytes_eq raw (codes "HTTP://Example.COM:80/%7ea?q=%2f#top") then some upper else some lower

abbrev long_form : Bytes
long_form = codes "HTTP://Example.COM:80/%7ea?q=%2f#top"

abbrev short_form : Bytes
short_form = codes "http://example.com/~a?q=%2F"

normalize_runs :
    (normalize two_urls long_form ≡ ok short_form) × (normalize two_urls short_form ≡ ok short_form)
unfolding normal
normalize_runs = (refl, refl)

-- IsDroppedScheme itself, given the text with the tabs, does not see the scheme.
tabs_hide_scheme : is_dropped_scheme (codes "java" ++ 9 ∷ 9 ∷ codes "script:alert(1)") ≡ false
unfolding normal
tabs_hide_scheme = refl

abbrev slash_a : List Token
slash_a = lit b'/' ∷ enc b'~' ∷ lit b'a' ∷ []

abbrev q_slash : List Token
q_slash = lit b'q' ∷ lit b'=' ∷ enc b'/' ∷ []

normalize_same_example : normalize two_urls long_form ≡ normalize two_urls short_form
unfolding normal reduce
normalize_same_example =
    normalize_same two_urls long_form short_form upper lower refl refl refl refl (record {
      scheme = refl;
      host = refl;
      port = [];
      port_left = default of_http;
      port_right = left_out;
      path_left = codes "/%7ea";
      path_right = codes "/~a";
      kept_left = as_written;
      kept_right = decoded_only;
      path = (
        slash_a,
        lit b'/' ∷ lit b'~' ∷ lit b'a' ∷ [],
        plain (omega arith) (triplet refl (plain (omega arith) done)),
        plain (omega arith) (plain (omega arith) (plain (omega arith) done)),
        refl,
      );
      query = (
        q_slash,
        q_slash,
        plain (omega arith) (plain (omega arith) (triplet refl done)),
        plain (omega arith) (plain (omega arith) (triplet refl done)),
        refl,
      );
    })

frontier : Unit {0}
unfolding normal split join cons_head has_suffix ignores should_ignore_param param_key kept_pairs
    kept_suffix key_query key_of reparsed frontier_key
frontier = tt

abbrev trackers : List Bytes
trackers = codes "utm_*" ∷ codes "gclid" ∷ []

key_query_runs :
    (key_query trackers (codes "b=2&utm_source=x&a=1&gclid=9") ≡ codes "?b=2&a=1")
    × (key_query trackers (codes "utm_source=x&gclid=9") ≡ [])
unfolding frontier
key_query_runs = (refl, refl)

abbrev tracked : Url
tracked = record lower { raw_query = codes "utm_id=7&b=2&a=1" }

abbrev looping : Url
looping = record lower { path = codes "/a/b/b/b" }

abbrev to_looping : Parser
to_looping raw = some looping

trap_run : has_repeated_path_segments to_looping short_form ≡ true
unfolding frontier count_repeats repeats has_repeated_path_segments
trap_run = refl

-- The host of "host:port" where the text has one port, and a list of one public suffix.
abbrev no_port : Bytes → Option Bytes
no_port host = none

abbrev same_domain : Bytes → Option Bytes
same_domain host = some (codes "example.com")

abbrev exact : ScopeChecker
exact = record {
  mode = exact_host;
  seed_host = codes "example.com";
  seed_domain = [];
  allowed_hosts = [];
}

is_in_scope_iff_example : (is_in_scope same_domain two_urls exact short_form ≡ true) ↔ (
    (u : Url) × (two_urls short_form ≡ some u)
    × (is_empty u.host ≡ false)
    × ((u.scheme ≡ codes "http") ⊎ (u.scheme ≡ codes "https"))
    × (u.has_user ≡ false)
    × InBoundary no_port same_domain exact_host (codes " Example.com") [] (to_lower u.hostname))
unfolding normal trim_space trim_left trim_right is_space is_bracket normalize_host
    new_scope_checker
is_in_scope_iff_example =
    is_in_scope_iff no_port same_domain two_urls exact_host (codes " Example.com") [] exact
      short_form refl
