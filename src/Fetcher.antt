-- ===== src/Fetcher.antt =====
-- One fetch: its redirects and its retry (internal/fetcher/fetcher.go). The network is a state `W`
-- that each request changes. Headers, the deadline, the body and the time to the first byte are not
-- modelled, so the fields about them are left out of the options and of the result.
pub mod Redirects
pub mod Retry
pub mod Dial
pub mod Throttle
use seo_crawler_mcp.Prelude.{
  ℕ, zero, suc, Bool, true, false, Option, none, some, List, [], ◌∷◌, ◌++◌, Bytes, if◌then◌else◌,
  ◌==◌, leb, length, bytes_mem,
}
use seo_crawler_mcp.Prelude.Result.{Result, ok, err, ◌>>=◌, ◌>>◌}
use seo_crawler_mcp.UrlUtil.Normalize.{Url, Parser}
use seo_crawler_mcp.Ssrf.{Ip, Guard, GuardError, validate_url, validate_host}

pub record Options : Type 0 where
  pub max_redirect_hops : ℕ
  pub ssrf_guard : Option Guard

pub data FetchError : Type 0 where
  ssrf_refused : GuardError → FetchError
  parse_failed request_failed cancelled : FetchError

pub record RedirectHop : Type 0 where
  pub hop_index : ℕ
  pub status_code : ℕ
  pub from_url : Bytes
  pub to_url : Bytes

pub record FetchResult : Type 0 where
  pub requested_url : Bytes
  pub final_url : Bytes
  pub status_code : ℕ
  pub redirect_hops : List RedirectHop
  pub redirect_loop_detected : Bool
  pub redirect_hops_exceeded : Bool
  pub error : Option FetchError

-- What the calls of `do` share: the result and the URLs seen, which CheckRedirect captures.
pub record Track : Type 0 where
  pub result : FetchResult
  pub seen : List Bytes

-- A response: a redirect with the target that its Location resolves to, or any other status.
pub data Response : Type 0 where
  redirect : ℕ → Bytes → Response
  reply : ℕ → Response
  broken : Response

-- What is outside the source: url.Parse, URL.String of the URL that a text is parsed into, net.ParseIP,
-- net.LookupIP, whose answers stay the same over a fetch, one request on the wire, and the wait before
-- a retry, `none` when the context ends first. A URL is kept as the text it is parsed from.
pub record Net (W : Type 0) : Type 1 where
  pub parse : Parser
  pub string_of : Bytes → Bytes
  pub parse_ip : Bytes → Option Ip
  pub lookup : Bytes → Option (List Ip)
  pub send : W → Bytes → W × Response
  pub wait : W → Option W

pub data Verdict : Type 0 where
  follow_it use_last_response : Verdict
  refuse : FetchError → Verdict

-- What client.Do returns: the URL and status of the last response, or an error.
pub data Outcome : Type 0 where
  responded : Bytes → ℕ → Outcome
  failed : FetchError → Outcome

unfoldable pub new_hop : FetchResult → ℕ → Bytes → Bytes → RedirectHop
new_hop r status from to = record {
  hop_index = length r.redirect_hops;
  status_code = status;
  from_url = from;
  to_url = to;
}

abbrev pub add_hop : FetchResult → RedirectHop → FetchResult
add_hop r hop = record r { redirect_hops = r.redirect_hops ++ hop ∷ [] }

unfoldable pub new_track : Bytes → Track
new_track url = record {
  result = record {
    requested_url = url;
    final_url = [];
    status_code = 0;
    redirect_hops = [];
    redirect_loop_detected = false;
    redirect_hops_exceeded = false;
    error = none;
  };
  seen = url ∷ [];
}

-- The result with what client.Do returned in it.
unfoldable pub finish : Outcome → Track → FetchResult
finish (responded url status) t = record t.result { final_url = url; status_code = status }
finish (failed e) t = record t.result { error = some e }

unfoldable pub is_too_many_requests : ℕ → Bool
is_too_many_requests status = status == 429

module _ {W : Type 0} (net : Net W) (opts : Options) where
  -- The host of a URL, which ValidateHost is given.
  unfoldable pub hostname_of : Bytes → Bytes
  hostname_of url = elim (net.parse url) [ none ↦ [] | some u ↦ u.hostname ]

  -- The guard's tests of a URL and its host, none without a guard.
  unfoldable pub guard_passes : Bytes → Result FetchError (Unit {0})
  guard_passes url = elim opts.ssrf_guard [
    | none ↦ ok tt
    | some g ↦ elim (validate_url net.parse url) [
      | err e ↦ err (ssrf_refused e)
      | ok _ ↦ elim (validate_host net.parse_ip net.lookup g (hostname_of url)) [
        | err e ↦ err (ssrf_refused e)
        | ok _ ↦ ok tt
      ]
    ]
  ]

  -- CheckRedirect, on the track that already has the hop.
  unfoldable pub after_hop : Track → Bytes → Verdict × Track
  after_hop t to =
      if bytes_mem to t.seen
      then (
        use_last_response,
        record t { result = record t.result { redirect_loop_detected = true } },
      )
      else let noted = record t { seen = to ∷ t.seen } in
        if leb opts.max_redirect_hops (length t.result.redirect_hops)
        then (
          use_last_response,
          record noted { result = record t.result { redirect_hops_exceeded = true } },
        )
        else elim (guard_passes to) [ err e ↦ (refuse e, noted) | ok _ ↦ (follow_it, noted) ]

  unfoldable pub check_redirect : Track → ℕ → Bytes → Bytes → Verdict × Track
  check_redirect t status from to =
      after_hop (record t { result = add_hop t.result (new_hop t.result status from to) }) to

  -- client.Do: requests until a response is no redirect or CheckRedirect stops; `none` when the
  -- fuel, which bounds the requests, is too little.
  unfoldable pub follow : ℕ → W → Bytes → Track → Option (Outcome × (W × Track))
  follow zero w url t = none
  follow (suc fuel) w url t =
      let (w', response) = net.send w url in
      elim response [
        | broken ↦ some (failed request_failed, (w', t))
        | reply status ↦ some (responded (net.string_of url) status, (w', t))
        | redirect status to ↦
            let (verdict, t') = check_redirect t status (net.string_of url) to in
            elim verdict [
              | use_last_response ↦ some (responded (net.string_of url) status, (w', t'))
              | refuse e ↦ some (failed e, (w', t'))
              | follow_it ↦ follow fuel w' to t'
            ]
      ]

  abbrev pub answer : Option (Outcome × (W × Track)) → Option (W × Result FetchError FetchResult)
  answer none = none
  answer (some (outcome, (w, t))) = some (w, ok (finish outcome t))

  -- A 429 is retried once, after the wait, with the same track.
  unfoldable pub retry_429 :
      ℕ → Bytes → Outcome × (W × Track) → Option (W × Result FetchError FetchResult)
  retry_429 fuel url (failed e, (w, t)) = answer (some (failed e, (w, t)))
  retry_429 fuel url (responded final status, (w, t)) =
      let again = net.wait w in
      elim (is_too_many_requests status) [
        | false ↦ answer (some (responded final status, (w, t)))
        | true ↦ elim again [
          | none ↦ answer (some (failed cancelled, (w, t)))
          | some w' ↦ answer (follow fuel w' url t)
        ]
      ]

  unfoldable pub run : ℕ → Bytes → W → Option (W × Result FetchError FetchResult)
  run fuel url w = elim (follow fuel w url (new_track url)) [
    | none ↦ none
    | some end ↦ retry_429 fuel url end
  ]

  -- http.NewRequestWithContext fails on a URL that does not parse.
  unfoldable pub new_request : Bytes → Result FetchError (Unit {0})
  new_request url = elim (net.parse url) [ none ↦ err parse_failed | some _ ↦ ok tt ]

  unfoldable pub do_fetch : ℕ → Bytes → W → Option (W × Result FetchError FetchResult)
  do_fetch fuel url w = elim (guard_passes url >> new_request url) [
    | err e ↦ some (w, err e)
    | ok _ ↦ run fuel url w
  ]
