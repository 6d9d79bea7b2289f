-- ===== src/Ssrf/Ranges.antt =====
-- Which addresses are blocked, as ranges of numbers.
use seo_crawler_mcp.Prelude.{
  ℕ, ◌+◌, ◌*◌, ◌/◌, ◌%◌, ◌^◌, ◌<◌, ◌≤◌, Bool, true, false, ◌&&◌, ◌==◌, any, ◌≡◌, ◌↔◌, ◌⊎◌, refl,
  arith, sym, subst, map, ◌-◌, List, [], ◌∷◌, All, here, there, all, ltb, All-all, any_iff, Any,
}
use native.Mathlib.Nat.{add-mul, div-add-mod', le-div_iff_mul-le, div-lt_iff_lt-mul}
use seo_crawler_mcp.Ssrf.{
  Ip, v4, v6, quad, to4, same_ip, ip_equal, Cidr, net4, net6, cidr_contains, blocked_cidrs,
  blocked_ips, Guard, is_blocked_ip,
}

-- The addresses from the first of a network to its last.
abbrev pub InRange : Ip → Cidr → Type 0
InRange (v4 n) (net4 first size) = (first ≤ n) × (n < first + size)
InRange (v6 n) (net6 first size) = (first ≤ n) × (n < first + size)
InRange _ _ = ⊥

-- A network starts at a multiple of its size.
abbrev is_aligned : Cidr → Bool
is_aligned (net4 first size) = ltb 0 size && first % size == 0
is_aligned (net6 first size) = ltb 0 size && first % size == 0

start_of : (first size : ℕ) → first % size ≡ 0 → first / size * size ≡ first
start_of first size aligned = omega (arith, div-add-mod' first size)

-- An equal quotient is a place between a multiple of the divisor and the next one.
div_iff :
    (n first size : ℕ)
    → 0 < size
    → first % size ≡ 0
    → ((n / size == first / size) ≡ true) ↔ ((first ≤ n) × (n < first + size))
div_iff n first size pos aligned =
    let low = le-div_iff_mul-le {k = size} {x = first / size} {y = n} pos in
    let high = div-lt_iff_lt-mul {k = size} {x = n} {y = first / size + 1} pos in
    ground (arith, start_of first size aligned, low, high, add-mul (first / size) 1 size)

cidr_contains_iff :
    (ip : Ip) (c : Cidr) → is_aligned c ≡ true → (cidr_contains c ip ≡ true) ↔ InRange ip c
unfolding cidr_contains
cidr_contains_iff (v4 n) (net4 first size) a = div_iff n first size (ground arith) (ground arith)
cidr_contains_iff (v6 n) (net6 first size) a = div_iff n first size (ground arith) (ground arith)
cidr_contains_iff (v6 n) (net4 first size) a = (λ h. absurd (cc h), λ h. absurd h)
cidr_contains_iff (v4 n) (net6 first size) a = (λ h. absurd (cc h), λ h. absurd h)

blocked_cidrs-is_aligned : all is_aligned blocked_cidrs ≡ true
unfolding blocked_cidrs
blocked_cidrs-is_aligned = refl

in_ranges_iff :
    (ip : Ip)
    → (any (λ c. cidr_contains c ip) blocked_cidrs ≡ true) ↔ Any (InRange ip) blocked_cidrs
in_ranges_iff ip =
    any_iff (λ c. cidr_contains c ip) (InRange ip) blocked_cidrs
      (All-all is_aligned _ (cidr_contains_iff ip) blocked_cidrs blocked_cidrs-is_aligned)

same_ip_iff : (a b : Ip) → (same_ip a b ≡ true) ↔ (a ≡ b)
unfolding same_ip
same_ip_iff (v4 m) (v4 n) = ground arith
same_ip_iff (v6 m) (v6 n) = ground arith
same_ip_iff (v4 m) (v6 n) = (λ h. absurd (cc h), λ h. absurd (cc h))
same_ip_iff (v6 m) (v4 n) = (λ h. absurd (cc h), λ h. absurd (cc h))

-- The metadata addresses of the clouds, 169.254.169.254 and fd00:ec2::254.
abbrev pub IsMetadata : Ip → Type 0
IsMetadata ip = (ip ≡ v4 (quad 169 254 169 254)) ⊎ (ip ≡ v6 (0xfd000ec2 * 2 ^ 96 + 0x254))

to4_idem : (ip : Ip) → to4 (to4 ip) ≡ to4 ip
unfolding to4
to4_idem (v4 n) = refl
to4_idem (v6 n) = ground arith

to4_metadata :
    (to4 (v4 (quad 169 254 169 254)) ≡ v4 (quad 169 254 169 254))
    × (to4 (v6 (0xfd000ec2 * 2 ^ 96 + 0x254)) ≡ v6 (0xfd000ec2 * 2 ^ 96 + 0x254))
unfolding to4
to4_metadata = (refl, refl)

ip_equal_iff : (a b : Ip) → (ip_equal a b ≡ true) ↔ (to4 a ≡ to4 b)
unfolding ip_equal
ip_equal_iff a b = same_ip_iff (to4 a) (to4 b)

blocked_ips-IsMetadata :
    (ip : Ip)
    → (any (λ blocked. ip_equal blocked (to4 ip)) blocked_ips ≡ true) ↔ IsMetadata (to4 ip)
unfolding blocked_ips
blocked_ips-IsMetadata ip =
    let first = ip_equal_iff (v4 (quad 169 254 169 254)) (to4 ip) in
    let second = ip_equal_iff (v6 (0xfd000ec2 * 2 ^ 96 + 0x254)) (to4 ip) in
    ground (arith, first, second, to4_idem ip, to4_metadata)

-- The first and the last address of the networks that are not for the public: this host and loopback,
-- the private ones, carrier-grade NAT, documentation, benchmarks, link-local, multicast and reserved.
abbrev pub private_ranges : List (Ip × Ip)
private_ranges =
    (v4 (quad 0 0 0 0), v4 (quad 0 255 255 255))
    ∷ (v4 (quad 127 0 0 0), v4 (quad 127 255 255 255))
    ∷ (v4 (quad 10 0 0 0), v4 (quad 10 255 255 255))
    ∷ (v4 (quad 100 64 0 0), v4 (quad 100 127 255 255))
    ∷ (v4 (quad 172 16 0 0), v4 (quad 172 31 255 255))
    ∷ (v4 (quad 192 0 0 0), v4 (quad 192 0 0 255))
    ∷ (v4 (quad 192 0 2 0), v4 (quad 192 0 2 255))
    ∷ (v4 (quad 192 168 0 0), v4 (quad 192 168 255 255))
    ∷ (v4 (quad 198 18 0 0), v4 (quad 198 19 255 255))
    ∷ (v4 (quad 198 51 100 0), v4 (quad 198 51 100 255))
    ∷ (v4 (quad 203 0 113 0), v4 (quad 203 0 113 255))
    ∷ (v4 (quad 169 254 0 0), v4 (quad 169 254 255 255))
    ∷ (v4 (quad 224 0 0 0), v4 (quad 239 255 255 255))
    ∷ (v4 (quad 240 0 0 0), v4 (quad 255 255 255 255))
    ∷ (v4 (quad 255 255 255 255), v4 (quad 255 255 255 255))
    ∷ (v6 1, v6 1)
    ∷ (v6 0, v6 0)
    ∷ (v6 (0xff00 * 2 ^ 112), v6 (2 ^ 128 - 1))
    ∷ (v6 (0xfe80 * 2 ^ 112), v6 (0xfec0 * 2 ^ 112 - 1))
    ∷ (v6 (0xfc00 * 2 ^ 112), v6 (0xfe00 * 2 ^ 112 - 1))
    ∷ (v6 (0x20010db8 * 2 ^ 96), v6 (0x20010db9 * 2 ^ 96 - 1))
    ∷ []

abbrev pub IsBetween : Ip → Ip × Ip → Type 0
IsBetween (v4 n) (v4 first, v4 last) = (first ≤ n) × (n ≤ last)
IsBetween (v6 n) (v6 first, v6 last) = (first ≤ n) × (n ≤ last)
IsBetween _ _ = ⊥

abbrev cidr_of : Ip × Ip → Cidr
cidr_of (v4 first, v4 last) = net4 first (last + 1 - first)
cidr_of (v6 first, v6 last) = net6 first (last + 1 - first)
cidr_of _ = net4 0 0

abbrev IsOrdered : Ip × Ip → Type 0
IsOrdered (v4 first, v4 last) = first ≤ last
IsOrdered (v6 first, v6 last) = first ≤ last
IsOrdered _ = ⊥

blocked_cidrs_lem : blocked_cidrs ≡ map cidr_of private_ranges
unfolding blocked_cidrs
blocked_cidrs_lem = refl

InRange-cidr_of : (ip : Ip) (r : Ip × Ip) → IsOrdered r → InRange ip (cidr_of r) ↔ IsBetween ip r
InRange-cidr_of (v4 n) (v4 first, v4 last) h = ground (arith, h)
InRange-cidr_of (v6 n) (v6 first, v6 last) h = ground (arith, h)
InRange-cidr_of (v4 n) (v6 first, v6 last) h = (λ x. absurd x, λ x. absurd x)
InRange-cidr_of (v6 n) (v4 first, v4 last) h = (λ x. absurd x, λ x. absurd x)
InRange-cidr_of ip (v4 first, v6 last) h = absurd h
InRange-cidr_of ip (v6 first, v4 last) h = absurd h

Any-cidr_of_sound :
    (ip : Ip) (rs : List (Ip × Ip))
    → All IsOrdered rs
    → Any (InRange ip) (map cidr_of rs)
    → Any (IsBetween ip) rs
Any-cidr_of_sound ip [] hs a = elim a [ ]
Any-cidr_of_sound ip (r ∷ rs) (h, hs) (here x) = here ((InRange-cidr_of ip r h).0 x)
Any-cidr_of_sound ip (r ∷ rs) (h, hs) (there a) = there (Any-cidr_of_sound ip rs hs a)

Any-cidr_of_complete :
    (ip : Ip) (rs : List (Ip × Ip))
    → All IsOrdered rs
    → Any (IsBetween ip) rs
    → Any (InRange ip) (map cidr_of rs)
Any-cidr_of_complete ip [] hs a = elim a [ ]
Any-cidr_of_complete ip (r ∷ rs) (h, hs) (here x) = here ((InRange-cidr_of ip r h).1 x)
Any-cidr_of_complete ip (r ∷ rs) (h, hs) (there a) = there (Any-cidr_of_complete ip rs hs a)

private_ranges-IsOrdered : All IsOrdered private_ranges
private_ranges-IsOrdered = omega arith

-- The address that one of 4 or of 16 bytes stands for: an IPv4 address in its IPv6 form is that.
pub data StandsFor : Ip → Ip → Type 0 where
  short_form : {n : ℕ} → StandsFor (v4 n) (v4 n)
  mapped : {n : ℕ} → n < 2 ^ 32 → StandsFor (v6 (0xffff * 2 ^ 32 + n)) (v4 n)
  long_form : {n : ℕ} → (n < 0xffff * 2 ^ 32) ⊎ (0x10000 * 2 ^ 32 ≤ n) → StandsFor (v6 n) (v6 n)

in_private_ranges :
    (ip : Ip)
    → (any (λ c. cidr_contains c ip) blocked_cidrs ≡ true) ↔ Any (IsBetween ip) private_ranges
in_private_ranges ip =
    let (sound, complete) = in_ranges_iff ip in
    (
      λ h.
          Any-cidr_of_sound ip private_ranges private_ranges-IsOrdered
            (subst (Any (InRange ip)) blocked_cidrs_lem (sound h)),
      λ a. complete (
          subst (Any (InRange ip)) (sym blocked_cidrs_lem)
            (Any-cidr_of_complete ip private_ranges private_ranges-IsOrdered a)),
    )

to4_v4 : (n : ℕ) → to4 (v4 n) ≡ v4 n
unfolding to4
to4_v4 n = refl

to4_mapped : (n : ℕ) → n < 2 ^ 32 → to4 (v6 (0xffff * 2 ^ 32 + n)) ≡ v4 n
unfolding to4
to4_mapped n lt =
    let front : (281470681743360 + n) / 4294967296 ≡ 65535 = omega arith in
    let back : (281470681743360 + n) % 4294967296 ≡ n = omega arith in ground (arith, front, back)

to4-StandsFor : {ip real : Ip} → StandsFor ip real → to4 ip ≡ real
unfolding to4
to4-StandsFor (short_form {n}) = refl
to4-StandsFor (mapped {n} lt) = to4_mapped n lt
to4-StandsFor (long_form {n} outside) =
    let other : (n / 4294967296 == 65535) ≡ false = ground (arith, outside) in ground (arith, other)

-- An address is blocked exactly when the one that it stands for is a metadata address, whatever the
-- guard's setting, or the guard does not allow private networks and it lies between the first and the
-- last address of one of the networks that are not for the public.
pub is_blocked_ip_iff :
    (g : Guard) (ip real : Ip)
    → StandsFor ip real
    → (is_blocked_ip g ip ≡ true) ↔ (
        IsMetadata real
        ⊎ ((g.allow_private_networks ≡ false) × Any (IsBetween real) private_ranges))
unfolding is_blocked_ip
is_blocked_ip_iff g ip real stands =
    let same = to4-StandsFor stands in
    subst
      (λ x.
        (is_blocked_ip g ip ≡ true)
        ↔ (IsMetadata x ⊎ ((g.allow_private_networks ≡ false) × Any (IsBetween x) private_ranges)))
      same (ground (arith, blocked_ips-IsMetadata ip, in_private_ranges (to4 ip)))

-- An IPv4 address in its IPv6 form is blocked exactly when the IPv4 address is.
pub is_blocked_ip-mapped :
    (g : Guard) (n : ℕ)
    → n < 2 ^ 32
    → is_blocked_ip g (v6 (0xffff * 2 ^ 32 + n)) ≡ is_blocked_ip g (v4 n)
unfolding is_blocked_ip
is_blocked_ip-mapped g n lt = ground (arith, to4_mapped n lt, to4_v4 n)
