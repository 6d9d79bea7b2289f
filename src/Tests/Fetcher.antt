-- ===== src/Tests/Fetcher.antt =====
-- Runs of internal/fetcher, and its theorems at inputs.
use seo_crawler_mcp.Prelude.{
  true, false, none, some, List, [], ◌∷◌, Bytes, codes, length, ◌≡◌, ◌↔◌, refl, subst, arith, All,
  ltb, bytes_eq, bytes_mem, if◌then◌else◌,
}
use seo_crawler_mcp.Prelude.Result.{Result, ok, err}
use seo_crawler_mcp.UrlUtil.Normalize.{Url}
use seo_crawler_mcp.Ssrf.{
  v4, quad, to4, same_ip, ip_equal, cidr_contains, blocked_cidrs, blocked_ips, Guard, is_blocked_ip,
  validate_url, validate_host,
}
use seo_crawler_mcp.Fetcher.{
  Options, FetchError, FetchResult, Response, redirect, reply, Net, hostname_of, guard_passes,
  new_hop, new_track, finish, is_too_many_requests, after_hop, check_redirect, follow, retry_429,
  run, new_request, do_fetch,
}
use seo_crawler_mcp.Fetcher.Dial.{
  Dialer, tcp, dial, check_host, check_remote, remote_blocked, IsUnblocked, dial_iff,
}
use seo_crawler_mcp.Fetcher.Retry.{do_fetch_keeps, do_fetch_retry_loops}

fetching : Unit {0}
unfolding bytes_eq bytes_mem to4 same_ip ip_equal cidr_contains blocked_cidrs blocked_ips
    is_blocked_ip validate_url validate_host hostname_of guard_passes new_hop new_track finish
    is_too_many_requests after_hop check_redirect follow retry_429 run new_request do_fetch
fetching = tt

abbrev http_url : Bytes → Url
http_url url = record {
  scheme = codes "http";
  host = codes "a.test";
  hostname = codes "a.test";
  port = [];
  raw_path = [];
  path = url;
  escaped_path = url;
  raw_query = [];
  has_user = false;
}

-- A site that sends `/a` to `/b`, whose first answer is 429; the log is the URLs requested.
abbrev answers : List Bytes → Bytes → Response
answers log url =
    if bytes_eq url (codes "/a")
    then redirect 301 (codes "/b")
    else if ltb (length log) 2
    then reply 429
    else reply 200

abbrev site : Net (List Bytes)
site = record {
  parse = λ url. some (http_url url);
  string_of = λ url. url;
  parse_ip = λ host. none;
  lookup = λ host. some (v4 (quad 8 8 8 8) ∷ []);
  send = λ log url. (url ∷ log, answers log url);
  wait = λ log. some log;
}

abbrev strict : Options
strict = record {
  max_redirect_hops = 10;
  ssrf_guard = some (record { allow_private_networks = false });
}

log_after :
    {log log' : List Bytes}
    → some log ≡ some log'
    → All (λ url. guard_passes site strict url ≡ ok tt) log
    → All (λ url. guard_passes site strict url ≡ ok tt) log'
log_after same passed =
    subst
      (λ kept.
        All (λ url. guard_passes site strict url ≡ ok tt)
          (elim kept [ none ↦ [] | some urls ↦ urls ]))
      same passed

do_fetch_keeps_example :
    (log : List Bytes) × ((out : Result FetchError FetchResult) × (do_fetch site strict 10
          (codes "/a")
          []
        ≡ some (log, out))
      × All (λ url. guard_passes site strict url ≡ ok tt) log)
do_fetch_keeps_example =
    do_fetch_keeps site strict (All λ url. guard_passes site strict url ≡ ok tt)
      (λ log url passed passes. (passes, passed)) (λ log log' passed same. log_after same passed) 10
      (codes "/a") [] (omega arith) (omega arith) tt

do_fetch_retry_loops_example :
    (r : FetchResult) × (do_fetch site strict 10 (codes "/a") []
      ≡ some (codes "/a" ∷ codes "/b" ∷ codes "/a" ∷ [], ok r))
    × (r.redirect_loop_detected ≡ true)
    × (r.status_code ≡ 301)
    × (r.final_url ≡ codes "/a")
unfolding fetching
do_fetch_retry_loops_example =
    do_fetch_retry_loops site strict 8 (codes "/a") (codes "/b") 301 _ _ _ _ _ refl refl refl refl
      (omega arith) refl refl refl refl

abbrev rebinding : Dialer
rebinding = record {
  split_host_port = λ address. some (codes "a.test");
  parse_ip = λ host. none;
  lookup = λ host. some (v4 (quad 8 8 8 8) ∷ []);
  connect = λ address. some (tcp (v4 (quad 10 0 0 1)));
}

abbrev strict_guard : Guard
strict_guard = record { allow_private_networks = false }

dial_runs : dial rebinding (some strict_guard) (codes "a.test:80") ≡ err remote_blocked
unfolding fetching dial check_host check_remote
dial_runs = refl

dial_iff_example :
    (dial rebinding (some strict_guard) (codes "a.test:80") ≡ ok (tcp (v4 (quad 10 0 0 1)))) ↔ (
      (host : Bytes) × (some (codes "a.test") ≡ some host)
      × (validate_host rebinding.parse_ip rebinding.lookup strict_guard host ≡ ok tt)
      × (some (tcp (v4 (quad 10 0 0 1))) ≡ some (tcp (v4 (quad 10 0 0 1))))
      × IsUnblocked strict_guard (tcp (v4 (quad 10 0 0 1))))
dial_iff_example = dial_iff rebinding strict_guard (codes "a.test:80") (tcp (v4 (quad 10 0 0 1)))
