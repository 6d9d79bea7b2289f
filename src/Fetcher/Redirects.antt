-- ===== src/Fetcher/Redirects.antt =====
-- The redirects of one client.Do.
use seo_crawler_mcp.Prelude.{
  ℕ, zero, suc, ◌+◌, ◌<◌, ◌≤◌, true, false, Option, none, some, [], ◌∷◌, ◌++◌, Bytes, leb, length,
  length-append, bytes_mem, ◌≡◌, refl, sym, subst, ap, ◌∙◌, arith, ◌⊎◌, inl, inr, Bool-cases,
}
use seo_crawler_mcp.Prelude.Result.{Result, ok, err}
use seo_crawler_mcp.Fetcher.{
  Options, FetchError, request_failed, Track, Response, redirect, reply, broken, Net, Verdict,
  follow_it, use_last_response, refuse, guard_passes, new_hop, add_hop, after_hop, check_redirect,
  Outcome, responded, failed, follow,
}

pub Result-cases :
    {E A : Type 0} (r : Result E A) → ((e : E) × (r ≡ err e)) ⊎ ((a : A) × (r ≡ ok a))
Result-cases (err e) = inl (e, refl)
Result-cases (ok a) = inr (a, refl)

Response-cases :
    (r : Response)
    → (r ≡ broken)
      ⊎ (((status : ℕ) × (r ≡ reply status))
          ⊎ ((status : ℕ) × ((to : Bytes) × (r ≡ redirect status to))))
Response-cases broken = inl refl
Response-cases (reply status) = inr (inl (status, refl))
Response-cases (redirect status to) = inr (inr (status, (to, refl)))

Verdict-cases :
    (v : Verdict)
    → (v ≡ follow_it) ⊎ ((v ≡ use_last_response) ⊎ ((e : FetchError) × (v ≡ refuse e)))
Verdict-cases follow_it = inl refl
Verdict-cases use_last_response = inr (inl refl)
Verdict-cases (refuse e) = inr (inr (e, refl))

module _ {W : Type 0} (net : Net W) (opts : Options) where
  -- The track of a redirect that is followed: the hop is last, the target is seen.
  abbrev pub followed : Track → ℕ → Bytes → Bytes → Track
  followed t status from to = record {
    result = add_hop t.result (new_hop t.result status from to);
    seen = to ∷ t.seen;
  }

  -- What CheckRedirect has tested when it lets the client follow.
  abbrev pub MayFollow : Track → Bytes → Type 0
  MayFollow t to =
      (bytes_mem to t.seen ≡ false)
      × (suc (length t.result.redirect_hops) < opts.max_redirect_hops)
      × (guard_passes net opts to ≡ ok tt)

  length-followed :
      (t : Track) (status : ℕ) (from to : Bytes)
      → length (followed t status from to).result.redirect_hops
        ≡ suc (length t.result.redirect_hops)
  length-followed t status from to =
      let hop = new_hop t.result status from to in
      omega (arith, length-append t.result.redirect_hops (hop ∷ []))

  check_redirect-MayFollow :
      (t : Track) (status : ℕ) (from to : Bytes) (t' : Track)
      → check_redirect net opts t status from to ≡ (follow_it, t')
      → (t' ≡ followed t status from to) × MayFollow t to
  unfolding check_redirect after_hop
  check_redirect-MayFollow t status from to t' h = elim (Bool-cases (bytes_mem to t.seen)) [
    | inl looped ↦ absurd (cc (h, looped))
    | inr fresh ↦
        let hop = new_hop t.result status from to in
        let now = t.result.redirect_hops ++ hop ∷ [] in
        elim (Bool-cases (leb opts.max_redirect_hops (length now))) [
          | inl full ↦ absurd (cc (h, fresh, full))
          | inr room ↦ elim (Result-cases (guard_passes net opts to)) [
            | inl (e, blocked) ↦ absurd (cc (h, fresh, room, blocked))
            | inr (_, passes) ↦ (
              ground (arith, h, fresh, room, passes),
              (fresh, ground (arith, room, length-followed t status from to), passes),
            )
          ]
        ]
  ]

  check_redirect_goes :
      (t : Track) (status : ℕ) (from to : Bytes)
      → MayFollow t to
      → check_redirect net opts t status from to ≡ (follow_it, followed t status from to)
  unfolding check_redirect after_hop
  check_redirect_goes t status from to (fresh, room, passes) =
      let size = length-followed t status from to in
      let short : leb opts.max_redirect_hops
            (length (followed t status from to).result.redirect_hops)
          ≡ false =
        ground (arith, size, room) in
      ground (arith, fresh, short, passes)

  check_redirect_loops :
      (t : Track) (status : ℕ) (from to : Bytes)
      → bytes_mem to t.seen ≡ true
      → check_redirect net opts t status from to ≡ (
        use_last_response,
        record t {
          result = record (add_hop t.result (new_hop t.result status from to)) {
            redirect_loop_detected = true;
          };
        },
      )
  unfolding check_redirect after_hop
  check_redirect_loops t status from to looped = ground (arith, looped)

  -- One request ends the call, or is a redirect that is followed.
  abbrev pub Steps : ℕ → W → Bytes → Track → Type 0
  Steps fuel w url t =
      ((outcome : Outcome) × ((t' : Track) × (follow net opts (suc fuel) w url t
            ≡ some (outcome, ((net.send w url).0, t')))))
      ⊎ ((status : ℕ) × ((to : Bytes) × MayFollow t to
            × (follow net opts (suc fuel) w url t
                ≡ follow net opts fuel (net.send w url).0 to
                    (followed t status (net.string_of url) to))))

  follow-Steps : (fuel : ℕ) (w : W) (url : Bytes) (t : Track) → Steps fuel w url t
  unfolding follow
  follow-Steps fuel w url t = elim (Response-cases (net.send w url).1) [
    | inl is_broken ↦ inl (failed request_failed, (t, rw (is_broken, follow) refl))
    | inr (inl (status, is_reply)) ↦
        inl (responded (net.string_of url) status, (t, rw (is_reply, follow) refl))
    | inr (inr (status, (to, is_redirect))) ↦
        let checked = check_redirect net opts t status (net.string_of url) to in
        elim (Verdict-cases checked.0) [
          | inl follows ↦
              let may =
                check_redirect-MayFollow t status (net.string_of url) to checked.1
                  (ground (arith, follows)) in
              inr (
                status,
                (
                  to,
                  may.1,
                  rw (is_redirect, follow)
                      (rw follows (ap (follow net opts fuel (net.send w url).0 to) may.0)),
                ),
              )
          | inr (inl stops) ↦ inl (
            responded (net.string_of url) status,
            (checked.1, rw (is_redirect, follow) (rw stops refl)),
          )
          | inr (inr (e, refused)) ↦
              inl (failed e, (checked.1, rw (is_redirect, follow) (rw refused refl)))
        ]
  ]

  pub follow_total :
      (fuel : ℕ) (w : W) (url : Bytes) (t : Track)
      → 0 < fuel
      → opts.max_redirect_hops ≤ fuel + length t.result.redirect_hops
      → (end : Outcome × (W × Track)) × (follow net opts fuel w url t ≡ some end)
  follow_total zero w url t pos enough = absurd (omega arith)
  follow_total (suc fuel) w url t pos enough = elim (follow-Steps fuel w url t) [
    | inl (outcome, (t', stops)) ↦ (_, stops)
    | inr (status, (to, may, goes)) ↦
        let size = length-followed t status (net.string_of url) to in
        let rest =
          follow_total fuel (net.send w url).0 to (followed t status (net.string_of url) to)
            (ground (arith, may, enough, size)) (ground (arith, may, enough, size)) in
        (rest.0, goes ∙ rest.1)
  ]

  -- The guard lets the URL pass, with its host.
  abbrev pub IsPermitted : Bytes → Type 0
  IsPermitted url = guard_passes net opts url ≡ ok tt

  -- The end of `follow`, if the fuel is enough, has the property.
  abbrev pub EndHas : (W → Type 0) → Option (Outcome × (W × Track)) → Type 0
  EndHas Holds none = Unit
  EndHas Holds (some (outcome, (w, t))) = Holds w

  follow-zero :
      (Holds : W → Type 0) (w : W) (url : Bytes) (t : Track)
      → EndHas Holds (follow net opts zero w url t)
  unfolding follow
  follow-zero Holds w url t = tt

  pub follow-EndHas :
      (Holds : W → Type 0)
      → ((w : W) (url : Bytes) → Holds w → IsPermitted url → Holds (net.send w url).0)
      → (fuel : ℕ) (w : W) (url : Bytes) (t : Track) → Holds w
      → IsPermitted url
      → EndHas Holds (follow net opts fuel w url t)
  follow-EndHas Holds keeps zero w url t holds permitted = follow-zero Holds w url t
  follow-EndHas Holds keeps (suc fuel) w url t holds permitted =
      let sent = keeps w url holds permitted in
      elim (follow-Steps fuel w url t) [
        | inl (outcome, (t', stops)) ↦ subst (EndHas Holds) (sym stops) sent
        | inr (status, (to, may, goes)) ↦ subst (EndHas Holds) (sym goes) (
            follow-EndHas Holds keeps fuel (net.send w url).0 to
              (followed t status (net.string_of url) to) sent may.2)
      ]

  -- What the client does with a redirect that may be followed, and with one to a URL that was seen.
  pub follow_goes :
      (fuel : ℕ) (w w' : W) (url to : Bytes) (status : ℕ) (t : Track)
      → net.send w url ≡ (w', redirect status to)
      → MayFollow t to
      → follow net opts (suc fuel) w url t
        ≡ follow net opts fuel w' to (followed t status (net.string_of url) to)
  unfolding follow
  follow_goes fuel w w' url to status t sent may =
      rw (sent, follow)
        (rw (check_redirect_goes t status (net.string_of url) to may)
          (cc (sent, check_redirect_goes t status (net.string_of url) to may)))

  pub follow_loops :
      (fuel : ℕ) (w w' : W) (url to : Bytes) (status : ℕ) (t : Track)
      → net.send w url ≡ (w', redirect status to)
      → bytes_mem to t.seen ≡ true
      → ((t' : Track) × (t'.result.redirect_loop_detected ≡ true)
          × (follow net opts (suc fuel) w url t
              ≡ some (responded (net.string_of url) status, (w', t'))))
  unfolding follow
  follow_loops fuel w w' url to status t sent looped =
      let hop = new_hop t.result status (net.string_of url) to in
      (
        record t { result = record (add_hop t.result hop) { redirect_loop_detected = true } },
        refl,
        rw (sent, follow)
            (rw (check_redirect_loops t status (net.string_of url) to looped)
              (cc (sent, check_redirect_loops t status (net.string_of url) to looped))),
      )

  pub follow_replies :
      (fuel : ℕ) (w w' : W) (url : Bytes) (status : ℕ) (t : Track)
      → net.send w url ≡ (w', reply status)
      → follow net opts (suc fuel) w url t ≡ some (responded (net.string_of url) status, (w', t))
  unfolding follow
  follow_replies fuel w w' url status t sent = rw (sent, follow) (cc sent)
