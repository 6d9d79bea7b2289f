-- ===== src/UrlUtil/Normalize/Canonical.antt =====
-- Normalize gives one text for URLs whose fields spell one resource.
use seo_crawler_mcp.Prelude.{
  ℕ, Bool-cases, is_empty, Bool, true, false, not, none, some, List, [], ◌∷◌, ◌++◌, Bytes, codes,
  if◌then◌else◌, subst, map, bytes_eq, has_prefix, to_lower, ◌≡◌, refl, ap, sym, ◌∙◌, ◌⊎◌, arith,
  inl, inr, bytes_eq_iff,
}
use seo_crawler_mcp.Prelude.Result.{Result, ok, ◌>>◌, require}
use seo_crawler_mcp.UrlUtil.Percent.{normalize_percent_encoding}
use seo_crawler_mcp.UrlUtil.Percent.Tokens.{Token, Spells, reduce, normalize_Spells, print}
use seo_crawler_mcp.UrlUtil.Normalize.{
  Url, Parser, sanitize_control_chars, default_port, is_http, host_with_port, path_source,
  normalize_query, query_suffix, normalize_parsed, NormalizeError, missing_scheme, missing_host,
  unsupported_scheme, dropped_prefix, normalize,
}

-- The ports that a URL of a scheme has if it names none.
pub data IsDefaultPort : Bytes → Bytes → Type 0 where
  of_http : IsDefaultPort (codes "http") (codes "80")
  of_https : IsDefaultPort (codes "https") (codes "443")

-- The port that a URL names and that its scheme, in lower case, does not give: none if it is left out.
pub data NamesPort (scheme : Bytes) : Bytes → Bytes → Type 0 where
  left_out : NamesPort scheme [] []
  default : {port : Bytes} → IsDefaultPort scheme port → NamesPort scheme port []
  own : {port : Bytes} → ¬ IsDefaultPort scheme port → NamesPort scheme port port

-- The path as net/url keeps it: the raw one where it has kept that, else the decoded one, and the root
-- where there is none.
pub data KeptPath : Bytes → Bytes → Bytes → Type 0 where
  as_written : {c : ℕ} {s decoded : Bytes} → KeptPath (c ∷ s) decoded (c ∷ s)
  decoded_only : {c : ℕ} {s : Bytes} → KeptPath [] (c ∷ s) (c ∷ s)
  root : KeptPath [] [] (codes "/")

-- The same tokens, once encoded bytes that need no encoding are decoded.
abbrev SameSpelling : Bool → Bytes → Bytes → Type 0
SameSpelling d s t =
    (ts : List Token) × (us : List Token) × Spells s ts
    × Spells t us
    × (map (reduce d) ts ≡ map (reduce d) us)

-- Two parsed URLs whose fields spell the same resource: the fragment, user info and letter case of
-- scheme and host do not count, nor do a default port and the spelling of encoded bytes, in the path as
-- net/url keeps it and in the query.
pub record SameResource (u v : Url) : Type 0 where
  pub scheme : to_lower u.scheme ≡ to_lower v.scheme
  pub host : to_lower u.hostname ≡ to_lower v.hostname
  pub port : Bytes
  pub port_left : NamesPort (to_lower u.scheme) u.port port
  pub port_right : NamesPort (to_lower v.scheme) v.port port
  pub path_left : Bytes
  pub path_right : Bytes
  pub kept_left : KeptPath u.raw_path u.path path_left
  pub kept_right : KeptPath v.raw_path v.path path_right
  pub path : SameSpelling true path_left path_right
  pub query : SameSpelling false u.raw_query v.raw_query

SameSpelling-normalize :
    (d : Bool) (s t : Bytes)
    → SameSpelling d s t
    → normalize_percent_encoding d s ≡ normalize_percent_encoding d t
SameSpelling-normalize d s t (ts, us, r, q, e) =
    normalize_Spells d r ∙ ap print e ∙ sym (normalize_Spells d q)

abbrev with_port : Bytes → Bytes → Bytes
with_port host port = if is_empty port then host else host ++ b':' ∷ port

is_default-IsDefaultPort :
    (scheme port : Bytes)
    → is_empty port ≡ false
    → bytes_eq port (default_port scheme) ≡ true
    → IsDefaultPort scheme port
unfolding default_port bytes_eq
is_default-IsDefaultPort scheme port given same =
    let found = (bytes_eq_iff port (default_port scheme)).0 same in
    elim (Bool-cases (bytes_eq scheme (codes "http"))) [
      | inl http ↦
          let named = (bytes_eq_iff scheme (codes "http")).0 http in
          subst (λ s. IsDefaultPort s port) (sym named)
            (subst (IsDefaultPort (codes "http")) (sym (found ∙ ap default_port named)) of_http)
      | inr other ↦ elim (Bool-cases (bytes_eq scheme (codes "https"))) [
        | inl https ↦
            let named = (bytes_eq_iff scheme (codes "https")).0 https in
            subst (λ s. IsDefaultPort s port) (sym named)
              (subst (IsDefaultPort (codes "https")) (sym (found ∙ ap default_port named)) of_https)
        | inr neither ↦ absurd (ground (arith, given, found, other, neither))
      ]
    ]

-- The host is printed with the port that it names.
host_with_port_lem :
    (scheme host : Bytes) {port named : Bytes}
    → NamesPort scheme port named
    → host_with_port scheme host port ≡ with_port host named
unfolding host_with_port default_port bytes_eq
host_with_port_lem scheme host left_out = refl
host_with_port_lem scheme host (default of_http) = refl
host_with_port_lem scheme host (default of_https) = refl
host_with_port_lem scheme host (own {port} other) = elim (Bool-cases (is_empty port)) [
  | inl missing ↦ rw missing refl
  | inr given ↦ elim (Bool-cases (bytes_eq port (default_port scheme))) [
    | inl same ↦ absurd (other (is_default-IsDefaultPort scheme port given same))
    | inr differs ↦ ground (arith, given, differs)
  ]
]

KeptPath-path_source : (u : Url) {p : Bytes} → KeptPath u.raw_path u.path p → path_source u ≡ p
unfolding path_source
KeptPath-path_source u kept = kept_source kept
  where
    kept_source :
        {r d p : Bytes}
        → KeptPath r d p
        → (let path = if is_empty r then d else r in if is_empty path then b'/' ∷ [] else path) ≡ p
    kept_source as_written = refl
    kept_source decoded_only = refl
    kept_source root = refl

normalize_query_lem : (q : Bytes) → normalize_query q ≡ normalize_percent_encoding false q
unfolding normalize_query normalize_percent_encoding
normalize_query_lem [] = refl
normalize_query_lem (c ∷ q) = refl

-- The result from its five parts.
assemble : Bytes → Bytes → Bytes → Bytes → Bytes → Result NormalizeError Bytes
assemble scheme host hosted path query =
    require (not (is_empty scheme)) missing_scheme
    >> (require (is_http scheme) (unsupported_scheme scheme)
        >> (require (not (is_empty host)) missing_host
            >> ok (scheme ++ codes "://" ++ hosted ++ path ++ query_suffix query)))

normalize_parsed_lem :
    (u : Url)
    → normalize_parsed u
      ≡ assemble
          (to_lower u.scheme)
          (to_lower u.hostname)
          (host_with_port (to_lower u.scheme) (to_lower u.hostname) u.port)
          (normalize_percent_encoding true (path_source u))
          (normalize_query u.raw_query)
unfolding normalize_parsed assemble
normalize_parsed_lem u = refl

pub normalize_parsed_same : (u v : Url) → SameResource u v → normalize_parsed u ≡ normalize_parsed v
normalize_parsed_same u v h =
    let hosted =
      host_with_port_lem (to_lower u.scheme) (to_lower u.hostname) h.port_left
      ∙ ap (λ host. with_port host h.port) h.host
      ∙ sym (host_with_port_lem (to_lower v.scheme) (to_lower v.hostname) h.port_right) in
    let path =
      ap (normalize_percent_encoding true) (KeptPath-path_source u h.kept_left)
      ∙ SameSpelling-normalize true h.path_left h.path_right h.path
      ∙ ap (normalize_percent_encoding true) (sym (KeptPath-path_source v h.kept_right)) in
    let query =
      normalize_query_lem u.raw_query
      ∙ SameSpelling-normalize false u.raw_query v.raw_query h.query
      ∙ sym (normalize_query_lem v.raw_query) in
    normalize_parsed_lem u
    ∙ (λ i. assemble (h.scheme i) (h.host i) (hosted i) (path i) (query i))
    ∙ sym (normalize_parsed_lem v)

-- Two texts, neither with a dropped scheme, that the parser reads as URLs whose fields spell the same
-- resource have one normal form or are refused alike: the scheme and the host up to letter case, the
-- port unless it is the scheme's own, the path as net/url keeps it and the query up to the spelling of
-- encoded bytes. Nothing is said of two spellings of a path of which net/url keeps only one as it is.
pub normalize_same :
    (parse : Parser) (a b : Bytes) (u v : Url)
    → dropped_prefix (sanitize_control_chars a) ≡ none
    → dropped_prefix (sanitize_control_chars b) ≡ none
    → parse (sanitize_control_chars a) ≡ some u
    → parse (sanitize_control_chars b) ≡ some v
    → SameResource u v
    → normalize parse a ≡ normalize parse b
unfolding normalize
normalize_same parse a b u v na nb pa pb h =
    rw (na, normalize)
      (rw (nb, normalize) (rw (pa, normalize) (rw (pb, normalize) (normalize_parsed_same u v h))))

is_http-cases : (s : Bytes) → is_http s ≡ true → (s ≡ codes "http") ⊎ (s ≡ codes "https")
unfolding is_http
is_http-cases s h = ground (arith, bytes_eq_iff s (codes "http"), bytes_eq_iff s (codes "https"))

assemble-ok :
    (scheme host hosted path query out : Bytes)
    → assemble scheme host hosted path query ≡ ok out
    → (is_http scheme ≡ true)
      × (out ≡ scheme ++ codes "://" ++ hosted ++ path ++ query_suffix query)
unfolding assemble
assemble-ok scheme host hosted path query out h = ground arith

assemble-http :
    (scheme host hosted path query out : Bytes)
    → assemble scheme host hosted path query ≡ ok out
    → (has_prefix out (codes "http://") ≡ true) ⊎ (has_prefix out (codes "https://") ≡ true)
unfolding has_prefix
assemble-http scheme host hosted path query out h =
    let (http, e) = assemble-ok scheme host hosted path query out h in
    elim (is_http-cases scheme http) [
      | inl p ↦ inl (rw e (rw p refl))
      | inr p ↦ inr (rw e (rw p refl))
    ]

normalize-ok :
    (parse : Parser) (raw out : Bytes)
    → normalize parse raw ≡ ok out
    → (u : Url) × (parse (sanitize_control_chars raw) ≡ some u) × (normalize_parsed u ≡ ok out)
unfolding normalize
normalize-ok parse raw out h = ground arith

-- Whatever the parser gives, a result begins with "http://" or "https://".
pub normalize-http :
    (parse : Parser) (raw out : Bytes)
    → normalize parse raw ≡ ok out
    → (has_prefix out (codes "http://") ≡ true) ⊎ (has_prefix out (codes "https://") ≡ true)
normalize-http parse raw out h =
    let (u, _, e) = normalize-ok parse raw out h in
    assemble-http _ _ _ _ _ out (sym (normalize_parsed_lem u) ∙ e)
