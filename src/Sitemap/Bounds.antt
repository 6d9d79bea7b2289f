-- ===== src/Sitemap/Bounds.antt =====
-- The traversal of sitemaps ends, whatever the servers answer, within its limits.
use seo_crawler_mcp.Prelude.{
  IsOnce, ℕ, zero, suc, ◌<◌, ◌≤◌, Bool, true, false, Option, none, some, List, [], ◌∷◌, Bytes,
  is_empty, bytes_mem, if◌then◌else◌, leb, length, Bool-cases, ◌≡◌, refl, sym, ap, subst, inl, inr,
  arith,
}
use seo_crawler_mcp.Sitemap.{
  max_sitemap_fetches, Xml, Client, Traversal, Round, next, finished, SitemapError, context_done,
  too_many_fetched, unreadable, answered, visit, take_from, round, started, run_rounds,
  fetch_and_parse,
}
use seo_crawler_mcp.Sitemap.Rounds.{
  IsBounded, work, IsStep, IsAsked, skip_or_end-IsStep, arrived-IsStep,
}

module _ (xml : Xml) (client : Client) (max_entries : ℕ) (sitemap_url : Bytes) where
  abbrev Bounded : Traversal → Type 0
  Bounded = IsBounded xml client max_entries sitemap_url

  abbrev Step : ℕ → Round → Type 0
  Step = IsStep xml client max_entries sitemap_url

  answered-IsStep :
      (current : Bytes) (answer : Option (Bytes × Bytes)) (t : Traversal) (w : ℕ)
      → IsAsked xml client max_entries sitemap_url t w
      → Step w (answered xml client max_entries sitemap_url current answer t)
  unfolding answered
  answered-IsStep current none t w h =
      skip_or_end-IsStep xml client max_entries sitemap_url current unreadable t w h.bounded h.less
  answered-IsStep current (some (body, final)) t w h =
      arrived-IsStep xml client max_entries sitemap_url current
        (if is_empty final then current else final) body t w h

  -- A URL that is new was not requested before.
  new_request :
      (current : Bytes) (t : Traversal)
      → Bounded t
      → bytes_mem current t.visited ≡ false
      → bytes_mem current t.requests ≡ false
  new_request current t inv new = elim (Bool-cases (bytes_mem current t.requests)) [
    | inl asked ↦ let seen = inv.known current asked in absurd (cc (seen, new))
    | inr h ↦ h
  ]

  known_after :
      (current : Bytes) (t : Traversal) (u : Bytes)
      → Bounded t
      → bytes_mem u (current ∷ t.requests) ≡ true
      → bytes_mem u (current ∷ t.visited) ≡ true
  unfolding bytes_mem
  known_after current t u inv h = let before = inv.known u in ground (arith, h, before)

  visit-IsStep :
      (current : Bytes) (rest : List Bytes) (t : Traversal)
      → Bounded t
      → t.queue ≡ current ∷ rest
      → bytes_mem current t.visited ≡ false
      → Step
          (work xml client max_entries sitemap_url t)
          (visit xml client max_entries sitemap_url current (record t { queue = rest }))
  unfolding visit
  visit-IsStep current rest t inv queue new =
      let requested = inv.requested in
      let visits = inv.visits in
      let count = inv.count in
      let size = ap length queue in
      answered-IsStep current (client.fetch t.requests current)
        (record t { queue = rest; visited = current ∷ t.visited; requests = current ∷ t.requests })
        (work xml client max_entries sitemap_url t)
        (record {
          bounded = record {
            requested = omega (arith, requested, size);
            visits = omega (arith, visits);
            count = omega (arith, count);
            entries = inv.entries;
            once = (new_request current t inv new, inv.once);
            known = λ u h. known_after current t u inv h;
          };
          uncounted = omega (arith, count);
          less = omega (arith, size);
          room = λ small. omega (arith, small, size);
        })

  skip_known :
      (current : Bytes) (rest : List Bytes) (t : Traversal)
      → Bounded t
      → t.queue ≡ current ∷ rest
      → Step (work xml client max_entries sitemap_url t) (next (record t { queue = rest }))
  unfolding IsStep
  skip_known current rest t inv queue =
      let requested = inv.requested in
      let size = ap length queue in
      (
        record {
          requested = omega (arith, requested, size);
          visits = inv.visits;
          count = inv.count;
          entries = inv.entries;
          once = inv.once;
          known = inv.known;
        },
        omega (arith, size),
      )

  stop-IsStep :
      (w : ℕ) (b : Bool) (t : Traversal) (error : Option SitemapError) (s : Round)
      → Bounded t
      → Step w s
      → Step w (if b then finished t error else s)
  unfolding IsStep
  stop-IsStep w true t error s inv h = inv
  stop-IsStep w false t error s inv h = h

  take_from-IsStep :
      (queue : List Bytes) (t : Traversal)
      → Bounded t
      → t.queue ≡ queue
      → Step
          (work xml client max_entries sitemap_url t)
          (take_from xml client max_entries sitemap_url queue t)
  unfolding take_from IsStep
  take_from-IsStep [] t inv h = inv
  take_from-IsStep (current ∷ rest) t inv h =
      let w = work xml client max_entries sitemap_url t in
      let skip = next (record t { queue = rest }) in
      let go = visit xml client max_entries sitemap_url current (record t { queue = rest }) in
      let last = if bytes_mem current t.visited then skip else go in
      let last-Step : Step w last = elim (Bool-cases (bytes_mem current t.visited)) [
        | inl old ↦
            subst (λ b. Step w (if b then skip else go)) (sym old) (skip_known current rest t inv h)
        | inr new ↦
            subst (λ b. Step w (if b then skip else go)) (sym new)
              (visit-IsStep current rest t inv h new)
      ] in
      let limited =
        if leb max_sitemap_fetches t.sitemap_count
        then finished t (some too_many_fetched)
        else last in
      let limited-Step =
        stop-IsStep w (leb max_sitemap_fetches t.sitemap_count) t (some too_many_fetched) last inv
          last-Step in
      let awake = if client.is_done t.requests then finished t (some context_done) else limited in
      let awake-Step =
        stop-IsStep w (client.is_done t.requests) t (some context_done) limited inv limited-Step in
      stop-IsStep w (leb max_entries (length t.entries)) t none awake inv awake-Step

  -- The loop ends within as many rounds as there is work.
  run_rounds-IsBounded :
      (fuel : ℕ) (t : Traversal)
      → Bounded t
      → work xml client max_entries sitemap_url t < fuel
      → (end : Traversal) × (error : Option SitemapError) × (run_rounds xml client max_entries
            sitemap_url fuel t
          ≡ some (end, error))
        × Bounded end
  unfolding run_rounds round IsStep
  run_rounds-IsBounded zero t inv h = absurd (omega (arith, h))
  run_rounds-IsBounded (suc fuel) t inv h =
      ended (take_from xml client max_entries sitemap_url t.queue t)
        (take_from-IsStep t.queue t inv refl)
        (λ s inv' less. run_rounds-IsBounded fuel s inv' (omega (arith, less, h)))
    where
      ended :
          (r : Round)
          → Step (work xml client max_entries sitemap_url t) r
          → ((s : Traversal)
              → Bounded s
              → work xml client max_entries sitemap_url s
                < work xml client max_entries sitemap_url t
              → (end : Traversal) × (error : Option SitemapError) × (run_rounds xml client
                    max_entries sitemap_url fuel s
                  ≡ some (end, error))
                × Bounded end)
          → (end : Traversal) × (error : Option SitemapError) × (◌≡◌
              {A = Option (Traversal × Option SitemapError)}
              (elim r [
                | finished s error ↦ some (s, error)
                | next s ↦ run_rounds xml client max_entries sitemap_url fuel s
              ])
              (some (end, error)))
            × Bounded end
      ended (finished s error) inv' later = (s, error, refl, inv')
      ended (next s) (inv', less) later = later s inv' less

  -- With fuel for 1001002 rounds the traversal ends, whatever the servers answer and the documents hold.
  -- It has requested at most 1000 URLs, none of them twice; it counts no more sitemaps than that, and
  -- gives no more entries than it may.
  pub fetch_and_parse-IsBounded :
      (fuel : ℕ)
      → 1001002 ≤ fuel
      → (end : Traversal) × (error : Option SitemapError) × (fetch_and_parse xml client max_entries
            sitemap_url fuel
          ≡ some (end, error))
        × (length end.requests ≤ max_sitemap_fetches)
        × IsOnce end.requests
        × (end.sitemap_count ≤ length end.requests)
        × (length end.entries ≤ max_entries)
  unfolding fetch_and_parse started
  fetch_and_parse-IsBounded fuel enough =
      let start = started xml client max_entries sitemap_url in
      let (end, error, same, inv) =
        run_rounds-IsBounded fuel start
          (record {
            requested = omega arith;
            visits = omega arith;
            count = omega arith;
            entries = omega arith;
            once = tt;
            known = λ u h. none_asked u h;
          })
          (omega (arith, enough)) in
      let requested = inv.requested in
      (end, error, same, omega (arith, requested), inv.once, inv.count, inv.entries)
    where
      none_asked : (u : Bytes) → bytes_mem u [] ≡ true → bytes_mem u [] ≡ true
      none_asked u h = h
