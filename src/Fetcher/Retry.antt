-- ===== src/Fetcher/Retry.antt =====
-- A whole fetch: its end, the requests it makes, and the retry after a 429.
use seo_crawler_mcp.Prelude.{
  ℕ, suc, ◌<◌, ◌≤◌, true, false, Option, none, some, List, [], ◌∷◌, Bytes, bytes_eq, bytes_mem,
  bytes_eq_refl, ◌≡◌, refl, subst, ap, ◌∙◌, arith, inl, inr, Bool-cases, Option-cases,
}
use seo_crawler_mcp.Prelude.Result.{Result, ok, err, ◌>>◌}
use seo_crawler_mcp.Fetcher.{
  Options, FetchError, FetchResult, Track, redirect, reply, Net, guard_passes, Outcome, responded,
  failed, follow, cancelled, is_too_many_requests, new_track, finish, answer, retry_429, run,
  new_request, do_fetch,
}
use seo_crawler_mcp.Fetcher.Redirects.{
  Result-cases, follow_total, IsPermitted, EndHas, follow-EndHas, followed, follow_goes,
  follow_replies, follow_loops,
}

not_seen :
    (first second : Bytes)
    → bytes_eq second first ≡ false
    → bytes_mem second (new_track first).seen ≡ false
unfolding bytes_mem new_track
not_seen first second differ = ground (arith, differ)

seen_head : (url : Bytes) (urls : List Bytes) → bytes_mem url (url ∷ urls) ≡ true
unfolding bytes_mem
seen_head url urls = ground (arith, bytes_eq_refl url)

finish_loops :
    (url : Bytes) (status : ℕ) (t : Track)
    → t.result.redirect_loop_detected ≡ true
    → (finish (responded url status) t).redirect_loop_detected ≡ true
unfolding finish
finish_loops url status t loops = loops

module _ {W : Type 0} (net : Net W) (opts : Options) where
  retry_429_total :
      (fuel : ℕ) (url : Bytes) (end : Outcome × (W × Track))
      → 0 < fuel
      → opts.max_redirect_hops ≤ fuel
      → (out : W × Result FetchError FetchResult) × (retry_429 net opts fuel url end ≡ some out)
  unfolding retry_429
  retry_429_total fuel url (failed e, (w, t)) pos enough = (_, refl)
  retry_429_total fuel url (responded final status, (w, t)) pos enough =
      elim (Bool-cases (is_too_many_requests status)) [
        | inr passes ↦ ((w, ok (finish (responded final status) t)), rw (passes, retry_429) refl)
        | inl retried ↦ elim (Option-cases (net.wait w)) [
          | inl ended ↦
              ((w, ok (finish (failed cancelled) t)), rw (retried, retry_429) (rw ended refl))
          | inr (w', waited) ↦
              let again = follow_total net opts fuel w' url t pos (omega (arith, enough)) in
              (
                (again.0.1.0, ok (finish again.0.0 again.0.1.1)),
                rw (retried, retry_429) (rw waited (ap (answer net opts) again.1)),
              )
        ]
      ]

  run_total :
      (fuel : ℕ) (url : Bytes) (w : W)
      → 0 < fuel
      → opts.max_redirect_hops ≤ fuel
      → (out : W × Result FetchError FetchResult) × (run net opts fuel url w ≡ some out)
  unfolding run
  run_total fuel url w pos enough =
      let first = follow_total net opts fuel w url (new_track url) pos (omega (arith, enough)) in
      let last = retry_429_total fuel url first.0 pos enough in (last.0, rw (first.1, run) last.1)

  -- With fuel for the redirects that the options allow, and at least one request, a fetch ends: with
  -- a result, or with the error that refused the URL.
  do_fetch_total :
      (fuel : ℕ) (url : Bytes) (w : W)
      → 0 < fuel
      → opts.max_redirect_hops ≤ fuel
      → (out : W × Result FetchError FetchResult) × (do_fetch net opts fuel url w ≡ some out)
  unfolding do_fetch
  do_fetch_total fuel url w pos enough =
      elim (Result-cases (guard_passes net opts url >> new_request net opts url)) [
        | inl (e, refused) ↦ ((w, err e), rw (refused, do_fetch) refl)
        | inr (_, passes) ↦
            let last = run_total fuel url w pos enough in (last.0, rw (passes, do_fetch) last.1)
      ]

  FetchHas : (W → Type 0) → Option (W × Result FetchError FetchResult) → Type 0
  FetchHas Holds none = Unit
  FetchHas Holds (some (w, out)) = Holds w

  has_at :
      (Holds : W → Type 0) (w : W) (out : Result FetchError FetchResult)
      → FetchHas Holds (some (w, out))
      → Holds w
  unfolding FetchHas
  has_at Holds w out holds = holds

  answer-FetchHas :
      (Holds : W → Type 0) (end : Option (Outcome × (W × Track)))
      → EndHas net opts Holds end
      → FetchHas Holds (answer net opts end)
  unfolding FetchHas
  answer-FetchHas Holds none holds = tt
  answer-FetchHas Holds (some (outcome, (w, t))) holds = holds

  module _ (Holds : W → Type 0)
      (sends : (w : W) (url : Bytes)
        → Holds w
        → IsPermitted net opts url
        → Holds (net.send w url).0)
      (waits : (w w' : W) → Holds w → net.wait w ≡ some w' → Holds w') where
    retry_429-FetchHas :
        (fuel : ℕ) (url : Bytes) (end : Outcome × (W × Track))
        → IsPermitted net opts url
        → Holds end.1.0
        → FetchHas Holds (retry_429 net opts fuel url end)
    unfolding retry_429 FetchHas
    retry_429-FetchHas fuel url (failed e, (w, t)) permitted holds = holds
    retry_429-FetchHas fuel url (responded final status, (w, t)) permitted holds =
        elim (Bool-cases (is_too_many_requests status)) [
          | inr passes ↦ rw (passes, retry_429) holds
          | inl retried ↦ elim (Option-cases (net.wait w)) [
            | inl ended ↦ rw (retried, retry_429) (rw ended holds)
            | inr (w', waited) ↦
                let rest =
                  follow-EndHas net opts Holds sends fuel w' url t (waits w w' holds waited)
                    permitted in
                rw (retried, retry_429)
                  (rw waited (answer-FetchHas Holds (follow net opts fuel w' url t) rest))
          ]
        ]

    do_fetch-FetchHas :
        (fuel : ℕ) (url : Bytes) (w : W) → Holds w → FetchHas Holds (do_fetch net opts fuel url w)
    unfolding do_fetch run FetchHas
    do_fetch-FetchHas fuel url w holds = elim (Result-cases (guard_passes net opts url)) [
      | inl (e, refused) ↦ rw (refused, do_fetch) holds
      | inr (_, passes) ↦ elim (Result-cases (new_request net opts url)) [
        | inl (e, bad) ↦ rw (passes, do_fetch) (rw bad holds)
        | inr (_, good) ↦ elim (Option-cases (follow net opts fuel w url (new_track url))) [
          | inl short ↦ rw (passes, do_fetch) (rw good (rw (short, run) tt))
          | inr (end, reaches) ↦
              let at_end =
                follow-EndHas net opts Holds sends fuel w url (new_track url) holds passes in
              rw (passes, do_fetch)
                (rw good (
                  rw (reaches, run)
                    (retry_429-FetchHas fuel url end passes
                      (subst (EndHas net opts Holds) reaches at_end))))
        ]
      ]
    ]

    -- What every request for a URL that the guard lets pass keeps true of the network, and every
    -- wait, a whole fetch keeps true, and it ends given fuel for the redirects: the first request,
    -- every redirect that is followed and the retry are requests for such URLs only.
    pub do_fetch_keeps :
        (fuel : ℕ) (url : Bytes) (w : W)
        → 0 < fuel
        → opts.max_redirect_hops ≤ fuel
        → Holds w
        → (w' : W) × ((out : Result FetchError FetchResult) × (do_fetch net opts fuel url w
              ≡ some (w', out))
            × Holds w')
    do_fetch_keeps fuel url w pos enough holds =
        let ends = do_fetch_total fuel url w pos enough in
        (
          ends.0.0,
          (
            ends.0.1,
            ends.1,
            has_at Holds ends.0.0 ends.0.1
                (subst (FetchHas Holds) ends.1 (do_fetch-FetchHas fuel url w holds)),
          ),
        )

  retries :
      (fuel : ℕ) (url final : Bytes) (w w' : W) (t : Track)
      → net.wait w ≡ some w'
      → retry_429 net opts fuel url (responded final 429, (w, t))
        ≡ answer net opts (follow net opts fuel w' url t)
  unfolding retry_429 is_too_many_requests
  retries fuel url final w w' t waited = rw waited refl

  -- A URL that redirects to another one, which answers 429 the first time, and that redirects again
  -- when it is retried is reported as a redirect loop, with the redirect as the last response, though
  -- neither attempt meets a URL twice: the retry keeps the URLs that the first attempt has seen.
  pub do_fetch_retry_loops :
      (fuel : ℕ) (first second : Bytes) (status : ℕ) (w₀ w₁ w₂ w₃ w₄ : W)
      → new_request net opts first ≡ ok tt
      → guard_passes net opts first ≡ ok tt
      → guard_passes net opts second ≡ ok tt
      → bytes_eq second first ≡ false
      → 1 < opts.max_redirect_hops
      → net.send w₀ first ≡ (w₁, redirect status second)
      → net.send w₁ second ≡ (w₂, reply 429)
      → net.wait w₂ ≡ some w₃
      → net.send w₃ first ≡ (w₄, redirect status second)
      → (r : FetchResult) × (do_fetch net opts (suc (suc fuel)) first w₀ ≡ some (w₄, ok r))
        × (r.redirect_loop_detected ≡ true)
        × (r.status_code ≡ status)
        × (r.final_url ≡ net.string_of first)
  unfolding do_fetch run new_track finish
  do_fetch_retry_loops fuel first second status w₀ w₁ w₂ w₃ w₄ parsed may_first may_second differ
        room sent replied waited again =
      let t = followed net opts (new_track first) status (net.string_of first) second in
      let goes =
        follow_goes net opts (suc fuel) w₀ w₁ first second status (new_track first) sent
          (not_seen first second differ, room, may_second) in
      let ends = follow_replies net opts fuel w₁ w₂ second 429 t replied in
      let loops =
        follow_loops net opts (suc fuel) w₃ w₄ first second status t again
          (seen_head second (first ∷ [])) in
      (
        finish (responded (net.string_of first) status) loops.0,
        rw (may_first, do_fetch)
            (rw parsed (
              rw (goes ∙ ends, run)
                (retries (suc (suc fuel)) first (net.string_of second) w₂ w₃ t waited
                  ∙ ap (answer net opts) loops.2))),
        finish_loops (net.string_of first) status loops.0 loops.1,
        refl,
        refl,
      )
