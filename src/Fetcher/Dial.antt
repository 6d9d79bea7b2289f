-- ===== src/Fetcher/Dial.antt =====
-- The dialer of the fetcher's transport (DialContext in internal/fetcher/fetcher.go), which tests the
-- host and then the address that the connection has.
use seo_crawler_mcp.Prelude.{
  false, Option, none, some, List, Bytes, if◌then◌else◌, ◌≡◌, ◌↔◌, refl, arith, inl, inr,
  Option-cases,
}
use seo_crawler_mcp.Prelude.Result.{Result, ok, err}
use seo_crawler_mcp.Ssrf.{Ip, Guard, GuardError, is_blocked_ip, validate_host}
use seo_crawler_mcp.Fetcher.Redirects.{Result-cases}

pub data DialError : Type 0 where
  bad_address : DialError
  host_refused : GuardError → DialError
  not_connected remote_blocked : DialError

-- A connection, by the address of its other end if it is a TCP one.
pub data Conn : Type 0 where
  tcp : Ip → Conn
  other : Conn

-- net.SplitHostPort without the port, name lookup, and net.Dialer.
pub record Dialer : Type 0 where
  pub split_host_port : Bytes → Option Bytes
  pub parse_ip : Bytes → Option Ip
  pub lookup : Bytes → Option (List Ip)
  pub connect : Bytes → Option Conn

unfoldable pub check_host : Dialer → Option Guard → Bytes → Result DialError (Unit {0})
check_host d none host = ok tt
check_host d (some g) host = elim (validate_host d.parse_ip d.lookup g host) [
  | err e ↦ err (host_refused e)
  | ok _ ↦ ok tt
]

unfoldable pub check_remote : Option Guard → Conn → Result DialError Conn
check_remote none conn = ok conn
check_remote (some g) other = ok other
check_remote (some g) (tcp ip) = if is_blocked_ip g ip then err remote_blocked else ok (tcp ip)

unfoldable pub dial : Dialer → Option Guard → Bytes → Result DialError Conn
dial d guard address = elim (d.split_host_port address) [
  | none ↦ err bad_address
  | some host ↦ elim (check_host d guard host) [
    | err e ↦ err e
    | ok _ ↦ elim (d.connect address) [
      | none ↦ err not_connected
      | some conn ↦ check_remote guard conn
    ]
  ]
]

-- A connection to an address that the guard does not block, as far as its address is known.
abbrev pub IsUnblocked : Guard → Conn → Type 0
IsUnblocked g (tcp ip) = is_blocked_ip g ip ≡ false
IsUnblocked g other = Unit

check_remote_iff :
    (g : Guard) (found conn : Conn)
    → (check_remote (some g) found ≡ ok conn) ↔ ((found ≡ conn) × IsUnblocked g conn)
unfolding check_remote
check_remote_iff g (tcp ip) (tcp ip') = ground arith
check_remote_iff g other other = (λ h. (refl, tt), λ h. refl)
check_remote_iff g (tcp ip) other = ground arith
check_remote_iff g other (tcp ip) = ground arith

-- With a guard, a dial gives a connection exactly when the address has a host that passes the
-- guard's tests and the connection made to it ends at an address that is not blocked either, whatever
-- the lookup said: a name that resolves anew while it is dialled does not get past the guard.
pub dial_iff :
    (d : Dialer) (g : Guard) (address : Bytes) (conn : Conn)
    → (dial d (some g) address ≡ ok conn) ↔ (
        (host : Bytes) × (d.split_host_port address ≡ some host)
        × (validate_host d.parse_ip d.lookup g host ≡ ok tt)
        × (d.connect address ≡ some conn)
        × IsUnblocked g conn)
unfolding dial check_host
dial_iff d g address conn = elim (Option-cases (d.split_host_port address)) [
  | inl bad ↦ ground (arith, bad)
  | inr (host, splits) ↦ elim (Result-cases (validate_host d.parse_ip d.lookup g host)) [
    | inl (e, refused) ↦ ground (arith, splits, refused)
    | inr (_, passes) ↦ elim (Option-cases (d.connect address)) [
      | inl failed ↦ ground (arith, splits, passes, failed)
      | inr (found, connects) ↦
          ground (arith, splits, passes, connects, check_remote_iff g found conn)
    ]
  ]
]
