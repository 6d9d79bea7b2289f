-- ===== src/UrlUtil/Scope.antt =====
-- NewScopeChecker and IsInScope (internal/urlutil/scope.go). The public-suffix list and
-- net.SplitHostPort are arguments: `etld` is EffectiveTLDPlusOne, `split_host_port` gives the host.
use seo_crawler_mcp.Prelude.{
  is_empty, ℕ, Bool, true, false, not, ◌||◌, Option, none, some, List, [], ◌∷◌, Bytes, codes, ◌==◌,
  map, if◌then◌else◌, bytes_eq, bytes_mem, to_lower, trim_space, trim_left, trim_right,
  bytes_eq_iff, ◌≡◌, ◌↔◌, ◌⊎◌, inl, inr, refl, sym, ap, arith, Any, here, there, Bool-cases,
}
use seo_crawler_mcp.Prelude.Result.{Result, ok, err}
use seo_crawler_mcp.UrlUtil.Normalize.{Url, Parser, is_http}

pub data Mode : Type 0 where
  registrable_domain exact_host allowlist : Mode
  other : Bytes → Mode

pub record ScopeChecker : Type 0 where
  pub mode : Mode
  pub seed_host : Bytes
  pub seed_domain : Bytes
  pub allowed_hosts : List Bytes

pub data ScopeError : Type 0 where
  seed_required : ScopeError
  no_registrable_domain : ScopeError
  unknown_mode : Bytes → ScopeError

unfoldable pub is_bracket : ℕ → Bool
is_bracket c = c == b'[' || c == b']'

module _ (split_host_port : Bytes → Option Bytes) where
  unfoldable pub normalize_host : Bytes → Bytes
  normalize_host raw =
      let host = to_lower (trim_space raw) in
      trim_right is_bracket
        (trim_left is_bracket (elim (split_host_port host) [ none ↦ host | some h ↦ h ]))

  -- The seed is tested for being empty before it is normalised.
  unfoldable pub new_scope_checker :
      (Bytes → Option Bytes) → Mode → Bytes → List Bytes → Result ScopeError ScopeChecker
  new_scope_checker etld registrable_domain seed allowed =
      let host = normalize_host seed in
      if is_empty seed then err seed_required else elim (etld host) [
        | none ↦ err no_registrable_domain
        | some domain ↦ ok (record {
          mode = registrable_domain;
          seed_host = host;
          seed_domain = domain;
          allowed_hosts = [];
        })
      ]
  new_scope_checker etld exact_host seed allowed =
      if is_empty seed
      then err seed_required
      else ok (record {
        mode = exact_host;
        seed_host = normalize_host seed;
        seed_domain = [];
        allowed_hosts = [];
      })
  new_scope_checker etld allowlist seed allowed = ok (record {
    mode = allowlist;
    seed_host = normalize_host seed;
    seed_domain = [];
    allowed_hosts = map normalize_host allowed;
  })
  new_scope_checker etld (other m) seed allowed = err (unknown_mode m)

-- The `switch` of IsInScope on the mode.
unfoldable pub host_in_scope : (Bytes → Option Bytes) → ScopeChecker → Mode → Bytes → Bool
host_in_scope etld sc registrable_domain host = elim (etld host) [
  | none ↦ false
  | some domain ↦ bytes_eq domain sc.seed_domain
]
host_in_scope etld sc exact_host host = bytes_eq host sc.seed_host
host_in_scope etld sc allowlist host = bytes_mem host sc.allowed_hosts
host_in_scope etld sc (other _) host = false

unfoldable pub is_in_scope : (Bytes → Option Bytes) → Parser → ScopeChecker → Bytes → Bool
is_in_scope etld parse sc raw = elim (parse raw) [
  | none ↦ false
  | some u ↦
      if is_empty u.host
      then false
      else if not (is_http u.scheme)
      then false
      else if u.has_user
      then false
      else host_in_scope etld sc sc.mode (to_lower u.hostname)
]

-- What each mode means by a host inside the boundary, from the configuration.
abbrev pub InBoundary :
    (Bytes → Option Bytes) → (Bytes → Option Bytes) → Mode → Bytes → List Bytes → Bytes → Type 0
InBoundary split etld registrable_domain seed allowed host =
    (domain : Bytes) × (etld host ≡ some domain) × (etld (normalize_host split seed) ≡ some domain)
InBoundary split etld exact_host seed allowed host = host ≡ normalize_host split seed
InBoundary split etld allowlist seed allowed host = Any (λ h. normalize_host split h ≡ host) allowed
InBoundary split etld (other _) seed allowed host = ⊥

mem-map_sound :
    (f : Bytes → Bytes) (host : Bytes) (hs : List Bytes)
    → bytes_mem host (map f hs) ≡ true
    → Any (λ h. f h ≡ host) hs
unfolding bytes_mem
mem-map_sound f host [] m = absurd (cc m)
mem-map_sound f host (h ∷ hs) m = elim (Bool-cases (bytes_eq host (f h))) [
  | inl e ↦ here (sym ((bytes_eq_iff host (f h)).0 e))
  | inr e ↦ there (mem-map_sound f host hs (ground arith))
]

mem-map_complete :
    (f : Bytes → Bytes) (host : Bytes) {hs : List Bytes}
    → Any (λ h. f h ≡ host) hs
    → bytes_mem host (map f hs) ≡ true
unfolding bytes_mem
mem-map_complete f host (here {x = h} e) = rw ((bytes_eq_iff host (f h)).1 (sym e))
mem-map_complete f host (there {x = h} {xs = hs} a) = ground (arith, mem-map_complete f host a)

module _ (split etld : Bytes → Option Bytes) (seed : Bytes) (allowed : List Bytes)
    (sc : ScopeChecker) where
  registrable_fields :
      new_scope_checker split etld registrable_domain seed allowed ≡ ok sc
      → (sc.mode ≡ registrable_domain) × (etld (normalize_host split seed) ≡ some sc.seed_domain)
  unfolding new_scope_checker
  registrable_fields h = ground arith

  exact_fields :
      new_scope_checker split etld exact_host seed allowed ≡ ok sc
      → (sc.mode ≡ exact_host) × (sc.seed_host ≡ normalize_host split seed)
  unfolding new_scope_checker
  exact_fields h = ground arith

  allowlist_fields :
      new_scope_checker split etld allowlist seed allowed ≡ ok sc
      → (sc.mode ≡ allowlist) × (sc.allowed_hosts ≡ map (normalize_host split) allowed)
  unfolding new_scope_checker
  allowlist_fields h = ground arith

  other_refused : (m : Bytes) → new_scope_checker split etld (other m) seed allowed ≡ ok sc → ⊥
  unfolding new_scope_checker
  other_refused m h = cc

registrable_iff :
    (o : Option Bytes) (d : Bytes)
    → (elim o [ none ↦ false | some domain ↦ bytes_eq domain d ] ≡ true)
      ↔ ((x : Bytes) × (o ≡ some x) × (some d ≡ some x))
registrable_iff none d = (λ h. absurd (cc h), λ (x, e, f). cc)
registrable_iff (some y) d =
    (λ h. (y, refl, ap some (sym ((bytes_eq_iff y d).0 h))), λ (x, e, f). (bytes_eq_iff y d).1 (cc))

-- The guards of IsInScope, in their order.
module _ (etld : Bytes → Option Bytes) (parse : Parser) (sc : ScopeChecker) (raw : Bytes) where
  scope_none : parse raw ≡ none → is_in_scope etld parse sc raw ≡ true → ⊥
  unfolding is_in_scope
  scope_none e t = ground arith

  module _ (u : Url) (e : parse raw ≡ some u) where
    scope_some :
        is_in_scope etld parse sc raw ≡ true
        → (is_empty u.host ≡ false)
          × (is_http u.scheme ≡ true)
          × (u.has_user ≡ false)
          × (host_in_scope etld sc sc.mode (to_lower u.hostname) ≡ true)
    unfolding is_in_scope
    scope_some t = ground arith

    scope_all :
        is_empty u.host ≡ false
        → is_http u.scheme ≡ true
        → u.has_user ≡ false
        → host_in_scope etld sc sc.mode (to_lower u.hostname) ≡ true
        → is_in_scope etld parse sc raw ≡ true
    unfolding is_in_scope
    scope_all a b c d = ground arith

host_in_scope_iff :
    (split etld : Bytes → Option Bytes) (mode : Mode) (seed : Bytes) (allowed : List Bytes)
    (sc : ScopeChecker) (host : Bytes)
    → new_scope_checker split etld mode seed allowed ≡ ok sc
    → (host_in_scope etld sc sc.mode host ≡ true) ↔ InBoundary split etld mode seed allowed host
unfolding host_in_scope
host_in_scope_iff split etld registrable_domain seed allowed sc host h =
    let (m, d) = registrable_fields split etld seed allowed sc h in
    rw (m, host_in_scope) (rw d (registrable_iff (etld host) sc.seed_domain))
host_in_scope_iff split etld exact_host seed allowed sc host h =
    let (m, d) = exact_fields split etld seed allowed sc h in
    rw (m, host_in_scope) (rw d (bytes_eq_iff host (normalize_host split seed)))
host_in_scope_iff split etld allowlist seed allowed sc host h =
    let (m, d) = allowlist_fields split etld seed allowed sc h in
    rw (m, host_in_scope)
      (rw d (
        mem-map_sound (normalize_host split) host allowed,
        λ a. mem-map_complete (normalize_host split) host a,
      ))
host_in_scope_iff split etld (other m) seed allowed sc host h =
    absurd (other_refused split etld seed allowed sc m h)

is_http_iff : (s : Bytes) → (is_http s ≡ true) ↔ ((s ≡ codes "http") ⊎ (s ≡ codes "https"))
unfolding is_http
is_http_iff s = ground (arith, bytes_eq_iff s (codes "http"), bytes_eq_iff s (codes "https"))

-- For a checker that was made from a configuration: a URL is in scope exactly when it parses, has a
-- host, is http or https, has no user info, and its host in lower case is inside the boundary that
-- the mode, the seed and the allowed hosts describe.
pub is_in_scope_iff :
    (split etld : Bytes → Option Bytes) (parse : Parser) (mode : Mode) (seed : Bytes)
    (allowed : List Bytes) (sc : ScopeChecker) (raw : Bytes)
    → new_scope_checker split etld mode seed allowed ≡ ok sc
    → (is_in_scope etld parse sc raw ≡ true) ↔ (
        (u : Url) × (parse raw ≡ some u)
        × (is_empty u.host ≡ false)
        × ((u.scheme ≡ codes "http") ⊎ (u.scheme ≡ codes "https"))
        × (u.has_user ≡ false)
        × InBoundary split etld mode seed allowed (to_lower u.hostname))
is_in_scope_iff split etld parse mode seed allowed sc raw h =
    (scope_to (parse raw) refl, scope_from)
  where
    scope_to :
        (p : Option Url)
        → parse raw ≡ p
        → is_in_scope etld parse sc raw ≡ true
        → (u : Url) × (parse raw ≡ some u)
          × (is_empty u.host ≡ false)
          × ((u.scheme ≡ codes "http") ⊎ (u.scheme ≡ codes "https"))
          × (u.has_user ≡ false)
          × InBoundary split etld mode seed allowed (to_lower u.hostname)
    scope_to none e t = absurd (scope_none etld parse sc raw e t)
    scope_to (some u) e t =
        let (a, b, c, d) = scope_some etld parse sc raw u e t in
        (
          u,
          e,
          a,
          (is_http_iff u.scheme).0 b,
          c,
          (host_in_scope_iff split etld mode seed allowed sc (to_lower u.hostname) h).0 d,
        )

    scope_from :
        (u : Url) × (parse raw ≡ some u)
          × (is_empty u.host ≡ false)
          × ((u.scheme ≡ codes "http") ⊎ (u.scheme ≡ codes "https"))
          × (u.has_user ≡ false)
          × InBoundary split etld mode seed allowed (to_lower u.hostname)
        → is_in_scope etld parse sc raw ≡ true
    scope_from (u, e, a, b, c, d) =
        scope_all etld parse sc raw u e a ((is_http_iff u.scheme).1 b) c
          ((host_in_scope_iff split etld mode seed allowed sc (to_lower u.hostname) h).1 d)
