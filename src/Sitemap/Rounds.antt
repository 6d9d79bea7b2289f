-- ===== src/Sitemap/Rounds.antt =====
-- What a round of the traversal keeps, and what it brings nearer to the end.
use seo_crawler_mcp.Prelude.{
  IsOnce, ℕ, zero, suc, ◌+◌, ◌-◌, ◌*◌, ◌<◌, ◌≤◌, true, Option, none, some, List, [], ◌∷◌, ◌++◌,
  Bytes, bytes_eq, bytes_mem, if◌then◌else◌, ltb, length, length-append, take, map, Bool-cases, ◌≡◌,
  refl, sym, ap, subst, inl, inr, arith,
}
use seo_crawler_mcp.Sitemap.{
  max_sitemap_fetches, Entry, Xml, Client, Traversal, Round, next, finished, SitemapError,
  too_many_queued, malformed, parse_xml, parse_index, with_source, skip_or_end, read_entries,
  follow_index, read_parsed, read_sitemap, counted, arrived,
}

module _ (xml : Xml) (client : Client) (max_entries : ℕ) (sitemap_url : Bytes) where
  pub record IsBounded (t : Traversal) : Type 0 where
    pub requested : length t.requests + length t.queue ≤ max_sitemap_fetches
    pub visits : length t.requests ≤ length t.visited
    pub count : t.sitemap_count ≤ length t.requests
    pub entries : length t.entries ≤ max_entries
    pub once : IsOnce t.requests
    pub known : (u : Bytes) → bytes_mem u t.requests ≡ true → bytes_mem u t.visited ≡ true

  -- What is left to do: a round with a new URL makes the first part less, another the queue.
  abbrev pub work : Traversal → ℕ
  work t = (max_sitemap_fetches - length t.visited) * 1001 + length t.queue

  -- A round from a state with so much to do.
  unfoldable pub IsStep : ℕ → Round → Type 0
  IsStep w (next s) = IsBounded s × (work s < w)
  IsStep w (finished s error) = IsBounded s

  length-take_le : {A : Type 0} (n : ℕ) (xs : List A) → length (take n xs) ≤ n
  length-take_le zero xs = omega arith
  length-take_le (suc n) [] = omega arith
  length-take_le (suc n) (x ∷ xs) = let ih = length-take_le n xs in omega (arith, ih)

  length-map : {A B : Type 0} (f : A → B) (xs : List A) → length (map f xs) ≡ length xs
  unfolding map
  length-map f [] = refl
  length-map f (x ∷ xs) = ap suc (length-map f xs)

  abbrev skips : Bytes → SitemapError → Traversal → Round
  skips = skip_or_end xml client max_entries sitemap_url

  pub skip_or_end-IsStep :
      (current : Bytes) (e : SitemapError) (t : Traversal) (w : ℕ)
      → IsBounded t
      → work t < w
      → IsStep w (skips current e t)
  unfolding skip_or_end IsStep
  skip_or_end-IsStep current e t w inv less = elim (Bool-cases (bytes_eq current sitemap_url)) [
    | inl h ↦ subst (λ b. IsStep w (if b then finished t (some e) else next t)) (sym h) inv
    | inr h ↦ subst (λ b. IsStep w (if b then finished t (some e) else next t)) (sym h) (inv, less)
  ]

  read_entries-IsStep :
      (current final : Bytes) (parsed : Option (List Entry)) (t : Traversal) (w : ℕ)
      → IsBounded t
      → work t < w
      → IsStep w (read_entries xml client max_entries sitemap_url current final parsed t)
  unfolding read_entries IsStep
  read_entries-IsStep current final none t w inv less =
      skip_or_end-IsStep current malformed t w inv less
  read_entries-IsStep current final (some parsed) t w inv less =
      let taken = take (max_entries - length t.entries) parsed in
      let few = length-take_le (max_entries - length t.entries) parsed in
      let same = length-map (with_source final) taken in
      let sum = length-append t.entries (map (with_source final) taken) in
      let limit = inv.entries in
      (
        record {
          requested = inv.requested;
          visits = inv.visits;
          count = inv.count;
          entries = omega (arith, few, same, sum, limit);
          once = inv.once;
          known = inv.known;
        },
        less,
      )

  -- What a round with a new URL leaves to do, whatever then waits.
  abbrev pub after_visit : Traversal → ℕ
  after_visit t = (max_sitemap_fetches - length t.visited) * 1001 + 1000

  follow_index-IsStep :
      (urls : List Bytes) (t : Traversal) (w : ℕ)
      → IsBounded t
      → (length t.visited ≤ max_sitemap_fetches → after_visit t < w)
      → IsStep w (follow_index xml client max_entries sitemap_url urls t)
  unfolding follow_index IsStep
  follow_index-IsStep urls t w inv room =
      elim (Bool-cases
        (ltb max_sitemap_fetches (length t.visited + length t.queue + length urls))) [
          | inl h ↦
              subst
                (λ b. IsStep w (
                  if b
                  then finished t (some too_many_queued)
                  else next (record t { queue = t.queue ++ urls })))
                (sym h) inv
          | inr h ↦
              let fits : length t.visited + length t.queue + length urls ≤ max_sitemap_fetches =
                ground (arith, h) in
              let sum = length-append t.queue urls in
              let visits = inv.visits in
              let left = room (omega (arith, fits)) in
              subst
                (λ b. IsStep w (
                  if b
                  then finished t (some too_many_queued)
                  else next (record t { queue = t.queue ++ urls })))
                (sym h)
                (
                  record {
                    requested = omega (arith, fits, sum, visits);
                    visits = inv.visits;
                    count = inv.count;
                    entries = inv.entries;
                    once = inv.once;
                    known = inv.known;
                  },
                  omega (arith, fits, sum, left),
                )
        ]

  read_parsed-IsStep :
      (current final : Bytes) (index : Option (List Bytes)) (parsed : Option (List Entry))
      (t : Traversal) (w : ℕ)
      → IsBounded t
      → work t < w
      → (length t.visited ≤ max_sitemap_fetches → after_visit t < w)
      → IsStep w (read_parsed xml client max_entries sitemap_url current final index parsed t)
  unfolding read_parsed
  read_parsed-IsStep current final none parsed t w inv less room =
      read_entries-IsStep current final parsed t w inv less
  read_parsed-IsStep current final (some []) parsed t w inv less room =
      read_entries-IsStep current final parsed t w inv less
  read_parsed-IsStep current final (some (url ∷ urls)) parsed t w inv less room =
      follow_index-IsStep (url ∷ urls) t w inv room

  -- A state in which a new URL was asked for, but not yet counted.
  pub record IsAsked (t : Traversal) (w : ℕ) : Type 0 where
    pub bounded : IsBounded t
    pub uncounted : t.sitemap_count < length t.requests
    pub less : work t < w
    pub room : length t.visited ≤ max_sitemap_fetches → after_visit t < w

  counted-IsStep :
      (current final body : Bytes) (t : Traversal) (w : ℕ)
      → IsAsked t w
      → IsStep w (
          read_sitemap xml client max_entries sitemap_url current final body
            (counted xml client max_entries sitemap_url t))
  unfolding read_sitemap counted
  counted-IsStep current final body t w h =
      let inv = h.bounded in
      let counts = h.uncounted in
      read_parsed-IsStep current final (parse_index xml body) (parse_xml xml body)
        (record t { sitemap_count = suc t.sitemap_count }) w
        (record {
          requested = inv.requested;
          visits = inv.visits;
          count = omega (arith, counts);
          entries = inv.entries;
          once = inv.once;
          known = inv.known;
        })
        h.less h.room

  -- A redirect visits its target too.
  redirected-IsAsked :
      (final : Bytes) (t : Traversal) (w : ℕ)
      → IsAsked t w
      → IsAsked (record t { visited = final ∷ t.visited }) w
  unfolding bytes_mem
  redirected-IsAsked final t w h =
      let inv = h.bounded in
      let visits = inv.visits in
      let less = h.less in
      record {
        bounded = record {
          requested = inv.requested;
          visits = omega (arith, visits);
          count = inv.count;
          entries = inv.entries;
          once = inv.once;
          known = λ u there. let before = inv.known u there in ground (arith, before);
        };
        uncounted = h.uncounted;
        less = omega (arith, less);
        room = λ small. let before = h.room (omega (arith, small)) in omega (arith, before);
      }

  pub arrived-IsStep :
      (current final body : Bytes) (t : Traversal) (w : ℕ)
      → IsAsked t w
      → IsStep w (arrived xml client max_entries sitemap_url current final body t)
  unfolding arrived IsStep
  arrived-IsStep current final body t w h =
      let read = read_sitemap xml client max_entries sitemap_url current final body in
      let add = counted xml client max_entries sitemap_url in
      let redirected = record t { visited = final ∷ t.visited } in
      elim (Bool-cases (bytes_eq final current)) [
        | inl same ↦
            subst
              (λ b. IsStep w (
                if b
                then read (add t)
                else if bytes_mem final t.visited
                then next t
                else read (add redirected)))
              (sym same) (counted-IsStep current final body t w h)
        | inr other ↦
            subst
              (λ b. IsStep w (
                if b
                then read (add t)
                else if bytes_mem final t.visited
                then next t
                else read (add redirected)))
              (sym other)
              (elim (Bool-cases (bytes_mem final t.visited)) [
                | inl seen ↦
                    subst (λ b. IsStep w (if b then next t else read (add redirected))) (sym seen)
                      (h.bounded, h.less)
                | inr fresh ↦
                    subst (λ b. IsStep w (if b then next t else read (add redirected))) (sym fresh)
                      (counted-IsStep current final body redirected w
                        (redirected-IsAsked final t w h))
              ])
      ]
