-- ===== src/Ssrf.antt =====
-- The SSRF guard (internal/ssrf/guard.go). An address is its number, of 32 or 128 bits; parsing a
-- literal address and DNS are arguments.
pub mod Ranges
pub mod Hosts
use seo_crawler_mcp.Prelude.{
  ℕ, ◌+◌, ◌*◌, ◌/◌, ◌%◌, ◌^◌, ◌<◌, ◌-◌, Bool, true, false, not, ◌&&◌, ◌||◌, Option, none, some,
  List, [], ◌∷◌, Bytes, codes, if◌then◌else◌, ◌==◌, any, bytes_eq,
}
use seo_crawler_mcp.Prelude.Result.{Result, ok, err}
use seo_crawler_mcp.UrlUtil.Normalize.{Url, Parser}

pub data Ip : Type 0 where
  v4 : ℕ → Ip
  v6 : ℕ → Ip

abbrev pub quad : ℕ → ℕ → ℕ → ℕ → ℕ
quad a b c d = ((a * 256 + b) * 256 + c) * 256 + d

-- To4: an address of ::ffff:0:0/96 is the IPv4 address of its last 32 bits.
unfoldable pub to4 : Ip → Ip
to4 (v4 n) = v4 n
to4 (v6 n) = if n / 2 ^ 32 == 0xffff then v4 (n % 2 ^ 32) else v6 n

unfoldable pub same_ip : Ip → Ip → Bool
same_ip (v4 m) (v4 n) = m == n
same_ip (v6 m) (v6 n) = m == n
same_ip _ _ = false

-- IP.Equal: an IPv4 address and its IPv6 form are equal.
unfoldable pub ip_equal : Ip → Ip → Bool
ip_equal a b = same_ip (to4 a) (to4 b)

-- A network: its first address and the number of addresses, a power of two that divides it.
pub data Cidr : Type 0 where
  net4 : ℕ → ℕ → Cidr
  net6 : ℕ → ℕ → Cidr

-- IPNet.Contains compares the leading bits; an address of the other family is outside.
unfoldable pub cidr_contains : Cidr → Ip → Bool
cidr_contains (net4 first size) (v4 n) = n / size == first / size
cidr_contains (net6 first size) (v6 n) = n / size == first / size
cidr_contains _ _ = false

abbrev pub cidr4 : ℕ → ℕ → Cidr
cidr4 first prefix = net4 first (2 ^ (32 - prefix))

abbrev pub cidr6 : ℕ → ℕ → Cidr
cidr6 first prefix = net6 first (2 ^ (128 - prefix))

unfoldable pub blocked_cidrs : List Cidr
blocked_cidrs =
    cidr4 (quad 0 0 0 0) 8
    ∷ cidr4 (quad 127 0 0 0) 8
    ∷ cidr4 (quad 10 0 0 0) 8
    ∷ cidr4 (quad 100 64 0 0) 10
    ∷ cidr4 (quad 172 16 0 0) 12
    ∷ cidr4 (quad 192 0 0 0) 24
    ∷ cidr4 (quad 192 0 2 0) 24
    ∷ cidr4 (quad 192 168 0 0) 16
    ∷ cidr4 (quad 198 18 0 0) 15
    ∷ cidr4 (quad 198 51 100 0) 24
    ∷ cidr4 (quad 203 0 113 0) 24
    ∷ cidr4 (quad 169 254 0 0) 16
    ∷ cidr4 (quad 224 0 0 0) 4
    ∷ cidr4 (quad 240 0 0 0) 4
    ∷ cidr4 (quad 255 255 255 255) 32
    ∷ cidr6 1 128
    ∷ cidr6 0 128
    ∷ cidr6 (0xff00 * 2 ^ 112) 8
    ∷ cidr6 (0xfe80 * 2 ^ 112) 10
    ∷ cidr6 (0xfc00 * 2 ^ 112) 7
    ∷ cidr6 (0x20010db8 * 2 ^ 96) 32
    ∷ []

-- 169.254.169.254 and fd00:ec2::254.
unfoldable pub blocked_ips : List Ip
blocked_ips = v4 (quad 169 254 169 254) ∷ v6 (0xfd000ec2 * 2 ^ 96 + 0x254) ∷ []

pub record Guard : Type 0 where
  pub allow_private_networks : Bool

unfoldable pub is_blocked_ip : Guard → Ip → Bool
is_blocked_ip g ip =
    if any (λ blocked. ip_equal blocked (to4 ip)) blocked_ips
    then true
    else if g.allow_private_networks
    then false
    else any (λ cidr. cidr_contains cidr (to4 ip)) blocked_cidrs

pub data GuardError : Type 0 where
  invalid_url scheme_not_allowed ip_blocked not_resolved : GuardError

unfoldable pub validate_url : Parser → Bytes → Result GuardError (Unit {0})
validate_url parse raw = elim (parse raw) [
  | none ↦ err invalid_url
  | some u ↦
      if bytes_eq u.scheme (codes "http") || bytes_eq u.scheme (codes "https")
      then ok tt
      else err scheme_not_allowed
]

-- `parse_ip` is net.ParseIP and `lookup` net.LookupIP, with `none` for an error.
unfoldable pub validate_host :
    (Bytes → Option Ip) → (Bytes → Option (List Ip)) → Guard → Bytes → Result GuardError (Unit {0})
validate_host parse_ip lookup g hostname = elim (parse_ip hostname) [
  | some ip ↦ if is_blocked_ip g ip then err ip_blocked else ok tt
  | none ↦ elim (lookup hostname) [
    | none ↦ err not_resolved
    | some ips ↦ if any (is_blocked_ip g) ips then err ip_blocked else ok tt
  ]
]
