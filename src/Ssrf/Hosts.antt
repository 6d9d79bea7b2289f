-- ===== src/Ssrf/Hosts.antt =====
-- Which hosts pass the guard.
use seo_crawler_mcp.Prelude.{
  Bool, false, Option, none, some, List, [], ◌∷◌, Bytes, ◌≡◌, ◌↔◌, inl, inr, refl, arith, any, All,
  Option-cases, if◌then◌else◌,
}
use seo_crawler_mcp.Prelude.Result.{ok, err}
use seo_crawler_mcp.Ssrf.{Ip, Guard, is_blocked_ip, ip_blocked, validate_host}

any-false_iff {ℓ} :
    {A : Type ℓ} (p : A → Bool) (xs : List A) → (any p xs ≡ false) ↔ All (λ x. p x ≡ false) xs
any-false_iff p [] = (λ h. tt, λ h. refl)
any-false_iff p (x ∷ xs) = (
  λ h. (ground arith, (any-false_iff p xs).0 (ground arith)),
  λ (now, later). let rest = (any-false_iff p xs).1 later in ground (arith, now, rest),
)

resolved_iff :
    (g : Guard) (ips : List Ip)
    → ((if any (is_blocked_ip g) ips then err ip_blocked else ok tt) ≡ ok tt)
      ↔ All (λ ip. is_blocked_ip g ip ≡ false) ips
resolved_iff g ips = ground (arith, any-false_iff (is_blocked_ip g) ips)

-- What must hold of a host, by what parsing it as an address gives and what looking it up gives.
abbrev pub Passes : Guard → Option Ip → Option (List Ip) → Type 0
Passes g (some ip) found = is_blocked_ip g ip ≡ false
Passes g none (some ips) = All (λ ip. is_blocked_ip g ip ≡ false) ips
Passes g none none = ⊥

-- A host passes exactly when it is a literal address that is not blocked, or is no literal address
-- and resolves to addresses none of which is blocked: one blocked address among them is enough to
-- refuse it, and so is a failed lookup.
pub validate_host_iff :
    (parse_ip : Bytes → Option Ip) (lookup : Bytes → Option (List Ip)) (g : Guard) (host : Bytes)
    → (validate_host parse_ip lookup g host ≡ ok tt) ↔ Passes g (parse_ip host) (lookup host)
unfolding validate_host
validate_host_iff parse_ip lookup g host = elim (Option-cases (parse_ip host)) [
  | inr (ip, literal) ↦ rw literal (ground arith)
  | inl named ↦ elim (Option-cases (lookup host)) [
    | inl failed ↦ rw (named, failed) (ground arith)
    | inr (ips, found) ↦ rw (named, found) (ground (arith, named, found, resolved_iff g ips))
  ]
]
