-- ===== src/Tests/Ssrf.antt =====
-- Runs of internal/ssrf, and its theorems at inputs.
use seo_crawler_mcp.Prelude.{
  arith, ◌+◌, ◌*◌, ◌^◌, true, false, Option, none, some, List, [], ◌∷◌, Bytes, codes, ◌≡◌, ◌↔◌, ◌⊎◌,
  refl, Any,
}
use seo_crawler_mcp.Prelude.Result.{ok, err}
use seo_crawler_mcp.Ssrf.{
  Ip, v4, v6, quad, to4, same_ip, ip_equal, cidr_contains, blocked_cidrs, blocked_ips, Guard,
  is_blocked_ip, ip_blocked, validate_host,
}
use seo_crawler_mcp.Ssrf.Ranges.{IsMetadata, is_blocked_ip_iff, IsBetween, private_ranges, mapped}
use seo_crawler_mcp.Ssrf.Hosts.{Passes, validate_host_iff}

guarding : Unit {0}
unfolding to4 same_ip ip_equal cidr_contains blocked_cidrs blocked_ips is_blocked_ip validate_host
guarding = tt

abbrev strict : Guard
strict = record { allow_private_networks = false }

abbrev lenient : Guard
lenient = record { allow_private_networks = true }

guard_runs :
    (is_blocked_ip strict (v4 (quad 10 1 2 3)) ≡ true)
    × (is_blocked_ip strict (v4 (quad 11 0 0 0)) ≡ false)
    × (is_blocked_ip strict (v4 (quad 172 32 0 0)) ≡ false)
    × (is_blocked_ip lenient (v4 (quad 127 0 0 1)) ≡ false)
    × (is_blocked_ip lenient (v6 (0xffff * 2 ^ 32 + quad 169 254 169 254)) ≡ true)
unfolding guarding
guard_runs = (refl, refl, refl, refl, refl)

is_blocked_ip_iff_example : (is_blocked_ip strict (v6 (0xffff * 2 ^ 32 + quad 10 1 2 3)) ≡ true) ↔ (
    IsMetadata (v4 (quad 10 1 2 3))
    ⊎ ((false ≡ false) × Any (IsBetween (v4 (quad 10 1 2 3))) private_ranges))
is_blocked_ip_iff_example =
    is_blocked_ip_iff strict (v6 (0xffff * 2 ^ 32 + quad 10 1 2 3)) (v4 (quad 10 1 2 3))
      (mapped (omega arith))

abbrev no_literal : Bytes → Option Ip
no_literal host = none

abbrev two_addresses : Bytes → Option (List Ip)
two_addresses host = some (v4 (quad 8 8 8 8) ∷ v4 (quad 10 0 0 1) ∷ [])

validate_host_runs : validate_host no_literal two_addresses strict (codes "a.test") ≡ err ip_blocked
unfolding guarding
validate_host_runs = refl

validate_host_iff_example :
    (validate_host no_literal two_addresses strict (codes "a.test") ≡ ok tt)
    ↔ Passes strict none (two_addresses (codes "a.test"))
validate_host_iff_example = validate_host_iff no_literal two_addresses strict (codes "a.test")
