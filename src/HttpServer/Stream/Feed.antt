-- ===== src/HttpServer/Stream/Feed.antt =====
-- Each new fetch is sent once, in the order of the ids.
use seo_crawler_mcp.Prelude.{
  ℕ, zero, suc, ◌<◌, true, ◌&&◌, List, [], ◌∷◌, ◌++◌, Bytes, bytes_eq, if◌then◌else◌, ltb, ltb→lt,
  lt→ltb, Bool-cases, Option-cases, keep, take, drop, All, ◌≡◌, refl, sym, ap, ap₂, subst, ◌∙◌, inl,
  inr, arith,
}
use seo_crawler_mcp.Storage.Paging.{by_id}
use seo_crawler_mcp.Storage.Paging.Sorting.{Distinct, Ascending, by_id-Ascending}
use seo_crawler_mcp.HttpServer.Stream.{
  ActivityFetch, PhaseEvent, ActivityTables, fetched, phase, Sent, status, activity, done,
  job_vanished, Session, stream_fetch_batch, stream_event_batch, rows_since, get_fetches_since,
  get_phase_events_since, send, advanced, phase_of, send_fetches, send_events, send_new_fetches,
  send_activity_delta,
}

-- The fetches among what was sent.
unfoldable pub fetches_of : {C : Type 0} → List (Sent C) → List ActivityFetch
fetches_of [] = []
fetches_of (activity (fetched f) ∷ sent) = f ∷ fetches_of sent
fetches_of (activity (phase e name message) ∷ sent) = fetches_of sent
fetches_of (status snapshot ∷ sent) = fetches_of sent
fetches_of (done s ∷ sent) = fetches_of sent
fetches_of (job_vanished ∷ sent) = fetches_of sent

abbrev id_of : ActivityFetch → ℕ
id_of f = f.id

-- The fetches of a job that come after an id.
abbrev pub waiting : {C : Type 0} → ActivityTables C → Bytes → ℕ → List ActivityFetch
waiting db job_id since =
    keep (λ f. bytes_eq f.job_id job_id && ltb since f.id) (by_id (λ f. f.id) db.fetches)

fetches_of-append :
    {C : Type 0} (xs ys : List (Sent C)) → fetches_of (xs ++ ys) ≡ fetches_of xs ++ fetches_of ys
unfolding fetches_of
fetches_of-append [] ys = refl
fetches_of-append (activity (fetched f) ∷ xs) ys = ap (λ r. f ∷ r) (fetches_of-append xs ys)
fetches_of-append (activity (phase e name message) ∷ xs) ys = fetches_of-append xs ys
fetches_of-append (status snapshot ∷ xs) ys = fetches_of-append xs ys
fetches_of-append (done s ∷ xs) ys = fetches_of-append xs ys
fetches_of-append (job_vanished ∷ xs) ys = fetches_of-append xs ys

append_nil : {A : Type 0} (xs : List A) → xs ++ [] ≡ xs
append_nil [] = refl
append_nil (x ∷ xs) = ap (λ r. x ∷ r) (append_nil xs)

append_assoc : {A : Type 0} (xs ys zs : List A) → (xs ++ ys) ++ zs ≡ xs ++ (ys ++ zs)
append_assoc [] ys zs = refl
append_assoc (x ∷ xs) ys zs = ap (λ r. x ∷ r) (append_assoc xs ys zs)

-- Where the rows ascend and come after an id, that many are sent from the front, and the rest comes
-- after the last of them.
module _ (job_id : Bytes) where
  abbrev after : ℕ → List ActivityFetch → List ActivityFetch
  after since rows = keep (λ f. bytes_eq f.job_id job_id && ltb since f.id) rows

  -- The ids that are sent move the mark to the last.
  abbrev mark : ℕ → List ActivityFetch → ℕ
  mark last [] = last
  mark last (f ∷ fs) = mark (advanced last f.id) fs

  same_after :
      (since next : ℕ) (rows : List ActivityFetch)
      → since < next
      → All (λ y. next < id_of y) rows
      → after next rows ≡ after since rows
  same_after since next [] less h = refl
  same_after since next (r ∷ rows) less (h, hs) =
      let ih = same_after since next rows less hs in
      let near = lt→ltb next r.id h in
      let far = lt→ltb since r.id (omega (arith, less, h)) in ground (arith, ih, near, far)

  first_All :
      (P : ActivityFetch → Type 0) (since : ℕ) (rows rest : List ActivityFetch) (f : ActivityFetch)
      → All P rows
      → after since rows ≡ f ∷ rest
      → P f
  first_All P since [] rest f ps h = absurd (cc h)
  first_All P since (r ∷ rows) rest f (p, ps) h =
      elim (Bool-cases (bytes_eq r.job_id job_id && ltb since r.id)) [
        | inl now ↦
            subst P
              (head_eq
                (sym (ap (λ b. if b then r ∷ after since rows else after since rows) now) ∙ h))
              p
        | inr later ↦
            first_All P since rows rest f ps
              (sym (ap (λ b. if b then r ∷ after since rows else after since rows) later) ∙ h)
      ]
    where
      head_eq : {a b : ActivityFetch} {xs ys : List ActivityFetch} → a ∷ xs ≡ b ∷ ys → a ≡ b
      head_eq h = cc h

  -- The head of what comes after an id, and what comes after the head.
  after_head :
      (since : ℕ) (rows rest : List ActivityFetch) (f : ActivityFetch)
      → Ascending id_of rows
      → after since rows ≡ f ∷ rest
      → (since < f.id) × (after f.id rows ≡ rest)
  after_head since [] rest f order h = absurd (cc h)
  after_head since (r ∷ rows) rest f (least, order) h =
      elim (Bool-cases (bytes_eq r.job_id job_id && ltb since r.id)) [
        | inl now ↦
            let both =
              cons_eq
                (sym (ap (λ b. if b then r ∷ after since rows else after since rows) now) ∙ h) in
            let less : since < r.id = ltb→lt since r.id (ground (arith, now)) in
            subst (λ t. (since < t.id) × (after t.id (r ∷ rows) ≡ rest)) both.0
              (less, not_after_itself r rows ∙ same_after since r.id rows less least ∙ both.1)
        | inr later ↦
            let tail =
              sym (ap (λ b. if b then r ∷ after since rows else after since rows) later) ∙ h in
            let ih = after_head since rows rest f order tail in
            let near : r.id < f.id = first_All (λ y. r.id < id_of y) since rows rest f least tail in
            (ih.0, before_it r f rows near ∙ ih.1)
      ]
    where
      cons_eq :
          {a b : ActivityFetch} {xs ys : List ActivityFetch} → a ∷ xs ≡ b ∷ ys → (a ≡ b) × (xs ≡ ys)
      cons_eq h = (cc h, cc h)

      before_it :
          (r f : ActivityFetch) (rows : List ActivityFetch)
          → r.id < f.id
          → after f.id (r ∷ rows) ≡ after f.id rows
      before_it r f rows near = ground (arith, near)

      not_after_itself :
          (r : ActivityFetch) (rows : List ActivityFetch) → after r.id (r ∷ rows) ≡ after r.id rows
      not_after_itself r rows = ground arith

  after-mark :
      (n since : ℕ) (rows next : List ActivityFetch)
      → Ascending id_of rows
      → after since rows ≡ next
      → after (mark since (take n next)) rows ≡ drop n next
  unfolding advanced
  after-mark zero since rows next order h = h
  after-mark (suc n) since rows [] order h = h
  after-mark (suc n) since rows (f ∷ next) order h =
      let (less, rest) = after_head since rows next f order h in
      let moved : advanced since f.id ≡ f.id =
        ap (λ b. if b then f.id else since) (lt→ltb since f.id less) in
      ap (λ m. after (mark m (take n next)) rows) moved ∙ after-mark n f.id rows next order rest

is_phase :
    (details : Bytes → Bytes × Bytes) (e : PhaseEvent)
    → (name : Bytes) × (message : Bytes) × (phase_of details e ≡ phase e name message)
unfolding phase_of
is_phase details e = elim (Option-cases e.details_json) [
  | inl h ↦ ([], [], ground (arith, h))
  | inr (json, h) ↦ ((details json).0, (details json).1, ground (arith, h))
]

module _ {C : Type 0} (details : Bytes → Bytes × Bytes) where
  -- What a part of a tick leaves: the fetches that were sent, those that it sends, and its mark.
  record IsSent (s t : Session C) (sent : List ActivityFetch) : Type 0 where
    log : fetches_of t.sent ≡ fetches_of s.sent ++ sent
    last : t.last_fetch_id ≡ mark s.job_id s.last_fetch_id sent
    job : t.job_id ≡ s.job_id

  send_fetches-IsSent :
      (fs : List ActivityFetch) (s : Session C) → IsSent s (send_fetches details fs s) fs
  unfolding send_fetches send fetches_of
  send_fetches-IsSent [] s = record {
    log = sym (append_nil (fetches_of s.sent));
    last = refl;
    job = refl;
  }
  send_fetches-IsSent (f ∷ fs) s =
      let next = record (send (activity (fetched f)) s) {
        last_fetch_id = advanced s.last_fetch_id f.id;
      } in
      let ih = send_fetches-IsSent fs next in
      record {
        log =
            ih.log
            ∙ ap (λ r. r ++ fs) (fetches_of-append s.sent (activity (fetched f) ∷ []))
            ∙ one_more (fetches_of s.sent) f fs;
        last = ih.last;
        job = ih.job;
      }
    where
      one_more :
          (xs : List ActivityFetch) (f : ActivityFetch) (fs : List ActivityFetch)
          → (xs ++ fetches_of {C = C} (activity (fetched f) ∷ [])) ++ fs ≡ xs ++ f ∷ fs
      one_more xs f fs = append_assoc xs (f ∷ []) fs

  send_new_fetches-IsSent :
      (fs : List ActivityFetch) (s : Session C) → IsSent s (send_new_fetches details fs s) fs
  unfolding send_new_fetches send_fetches
  send_new_fetches-IsSent [] s = send_fetches-IsSent [] s
  send_new_fetches-IsSent (f ∷ fs) s =
      let h =
        send_fetches-IsSent (f ∷ fs)
          (record s { urls_count_stale = true; issues_count_stale = true }) in
      record { log = h.log; last = h.last; job = h.job }

  -- Events are no fetches.
  event_is_none :
      (e : PhaseEvent) (log : List (Sent C))
      → fetches_of (log ++ activity (phase_of details e) ∷ []) ≡ fetches_of log
  unfolding fetches_of
  event_is_none e log =
      let (name, message, h) = is_phase details e in
      fetches_of-append log (activity (phase_of details e) ∷ [])
      ∙ ap (λ a. fetches_of log ++ fetches_of {C = C} (activity a ∷ [])) h
      ∙ append_nil (fetches_of log)

  send_events-IsSent :
      (es : List PhaseEvent) (s : Session C) → IsSent s (send_events details es s) []
  unfolding send_events send
  send_events-IsSent [] s = record {
    log = sym (append_nil (fetches_of s.sent));
    last = refl;
    job = refl;
  }
  send_events-IsSent (e ∷ es) s =
      let next = record (send (activity (phase_of details e)) s) {
        last_event_id = advanced s.last_event_id e.id;
      } in
      let ih = send_events-IsSent es next in
      record {
        log = ih.log ∙ ap (λ r. r ++ []) (event_is_none e s.sent);
        last = ih.last;
        job = ih.job;
      }

  -- A tick of a stream sends the next fetches of the job, 200 at most, in the order of their ids; those
  -- that wait then are the rest of those that waited, so that none is lost and none is sent again.
  pub send_activity_delta-waiting :
      (db : ActivityTables C) (s : Session C)
      → Distinct (λ f. f.id) db.fetches
      → (fetches_of (send_activity_delta details db s).sent
          ≡ fetches_of s.sent ++ take stream_fetch_batch (waiting db s.job_id s.last_fetch_id))
        × (waiting db
              (send_activity_delta details db s).job_id
              (send_activity_delta details db s).last_fetch_id
            ≡ drop stream_fetch_batch (waiting db s.job_id s.last_fetch_id))
  unfolding send_activity_delta get_fetches_since rows_since
  send_activity_delta-waiting db s distinct =
      let fs = take stream_fetch_batch (waiting db s.job_id s.last_fetch_id) in
      let mid = send_new_fetches details fs s in
      let sent = send_new_fetches-IsSent fs s in
      let events =
        send_events-IsSent
          (get_phase_events_since db mid.job_id mid.last_event_id stream_event_batch) mid in
      let rows = by_id (λ f. f.id) db.fetches in
      (
        events.log ∙ append_nil (fetches_of mid.sent) ∙ sent.log,
        ap₂ (waiting db) (events.job ∙ sent.job) (events.last ∙ sent.last)
            ∙ after-mark s.job_id stream_fetch_batch s.last_fetch_id rows
                (waiting db s.job_id s.last_fetch_id)
                (by_id-Ascending (λ f. f.id) db.fetches distinct) refl,
      )
