-- ===== src/Engine/Depths/Rounds.antt =====
-- Each round of the loop keeps what makes the depths shortest.
use seo_crawler_mcp.Prelude.{
  ℕ, suc, ◌+◌, ◌≤◌, true, false, List, [], ◌∷◌, Bytes, bytes_eq, bytes_eq_iff, bytes_eq_refl,
  bytes_mem, Bool-cases, ◌≡◌, refl, sym, ap, ◌∙◌, subst, ◌⊎◌, inl, inr, arith,
}
use seo_crawler_mcp.Engine.Depths.{
  PageNode, Link, is_known, depth_of, is_page, adjacent, Search, seeded, round,
}
use seo_crawler_mcp.Engine.Depths.Walks.{Walk, from_seed, along}
use seo_crawler_mcp.Engine.Depths.Offer.{
  Level, ascending, offer_all-Level, offer_all_known, offer_all_depth, offer_all_queue,
  offer_all_fresh,
}

-- Known depths are those of walks; a known page waits, or all that it links to is known and at most one
-- deeper; the seeds have depth 0.
pub record IsSearched (pages : List PageNode) (seeds : List Bytes) (links : List Link) (lo : ℕ)
    (s : Search) : Type 0 where
  pub level : Level lo (lo + 1) s
  pub sound :
      (v : Bytes) → is_known v s.depths ≡ true → Walk pages seeds links (depth_of v s.depths) v
  pub closed :
      (u v : Bytes)
      → is_known u s.depths ≡ true
      → bytes_mem v (adjacent u links) ≡ true
      → is_page v pages ≡ true
      → (bytes_mem u s.queue ≡ true)
        ⊎ ((is_known v s.depths ≡ true) × (depth_of v s.depths ≤ depth_of u s.depths + 1))
  pub seeds_known :
      (v : Bytes)
      → bytes_mem v seeds ≡ true
      → is_page v pages ≡ true
      → (is_known v s.depths ≡ true) × (depth_of v s.depths ≡ 0)

module _ (pages : List PageNode) (seeds : List Bytes) (links : List Link) where
  abbrev nothing_known : Search
  nothing_known = record { depths = []; queue = [] }

  pub seeded-IsSearched : IsSearched pages seeds links 0 (seeded pages seeds)
  unfolding seeded is_known depth_of ascending bytes_mem
  seeded-IsSearched =
      let start : Level 0 0 nothing_known = record {
        ordered = refl;
        low = λ v h. absurd (cc h);
        queued = λ v h. absurd (cc h);
      } in
      let level = offer_all-Level pages 0 0 nothing_known seeds (omega arith) start in
      let fresh = λ (v : Bytes) (h : is_known v (seeded pages seeds).depths ≡ true).
        offer_all_fresh pages 0 nothing_known seeds v refl h in
      record {
        level = record {
          ordered = level.ordered;
          low = λ v h. omega (arith, level.low v h);
          queued = level.queued;
        };
        sound = λ v h.
            let (zero_deep, _, among, page) = fresh v h in
            subst (λ n. Walk pages seeds links n v) (sym zero_deep) (from_seed among page);
        closed = λ u v h linked page. inl ((fresh u h).1);
        seeds_known = λ v among page.
            let known : is_known v (seeded pages seeds).depths ≡ true =
              ground (arith, offer_all_known pages 0 nothing_known seeds v, among, page) in
            (known, (fresh v known).0);
      }

  module _ (lo : ℕ) (s : Search) (u : Bytes) (rest : List Bytes) (head : s.queue ≡ u ∷ rest)
      (inv : IsSearched pages seeds links lo s) where
    abbrev d : ℕ
    d = depth_of u s.depths

    abbrev popped : Search
    popped = record { depths = s.depths; queue = rest }

    abbrev next : Search
    next = round pages links u rest s.depths

    u_ordered : ascending s.depths lo (u ∷ rest) ≡ true
    u_ordered = ap (ascending s.depths lo) (sym head) ∙ inv.level.ordered

    u_known : is_known u s.depths ≡ true
    unfolding bytes_mem
    u_known = inv.level.queued u (ap (bytes_mem u) head ∙ ground (arith, bytes_eq_refl u))

    popped-Level : Level d (d + 1) popped
    unfolding ascending bytes_mem
    popped-Level = record {
      ordered = ground (arith, u_ordered);
      low = λ v h. ground (arith, u_ordered, inv.level.low v h);
      queued = λ v h. inv.level.queued v (ap (bytes_mem v) head ∙ ground (arith, h));
    }

    next-Level : Level d (d + 1) next
    unfolding round
    next-Level =
        offer_all-Level pages (d + 1) d popped (adjacent u links) (omega arith) popped-Level

    kept :
        (v : Bytes)
        → is_known v s.depths ≡ true
        → (is_known v next.depths ≡ true) × (depth_of v next.depths ≡ depth_of v s.depths)
    unfolding round
    kept v h = (
      ground (arith, offer_all_known pages (d + 1) popped (adjacent u links) v, h),
      offer_all_depth pages (d + 1) popped (adjacent u links) v h,
    )

    fresh :
        (v : Bytes)
        → is_known v s.depths ≡ false
        → is_known v next.depths ≡ true
        → (depth_of v next.depths ≡ d + 1)
          × (bytes_mem v next.queue ≡ true)
          × (bytes_mem v (adjacent u links) ≡ true)
          × (is_page v pages ≡ true)
    unfolding round
    fresh v = offer_all_fresh pages (d + 1) popped (adjacent u links) v

    next_sound :
        (v : Bytes)
        → is_known v next.depths ≡ true
        → Walk pages seeds links (depth_of v next.depths) v
    next_sound v h = elim (Bool-cases (is_known v s.depths)) [
      | inl before ↦
          subst (λ n. Walk pages seeds links n v) (sym (kept v before).1) (inv.sound v before)
      | inr new ↦
          let (deep, _, linked, page) = fresh v new h in
          let one_more : suc d ≡ depth_of v next.depths = omega (arith, deep) in
          subst (λ n. Walk pages seeds links n v) one_more (along (inv.sound u u_known) linked page)
    ]

    next_closed :
        (x v : Bytes)
        → is_known x next.depths ≡ true
        → bytes_mem v (adjacent x links) ≡ true
        → is_page v pages ≡ true
        → (bytes_mem x next.queue ≡ true)
          ⊎ ((is_known v next.depths ≡ true)
              × (depth_of v next.depths ≤ depth_of x next.depths + 1))
    unfolding round bytes_mem
    next_closed x v h linked page = elim (Bool-cases (is_known x s.depths)) [
      | inr new ↦ inl (fresh x new h).1
      | inl before ↦ elim (Bool-cases (bytes_eq x u)) [
        | inl same ↦
            let x_is_u = (bytes_eq_iff x u).0 same in
            let from_u : bytes_mem v (adjacent u links) ≡ true =
              ap (λ y. bytes_mem v (adjacent y links)) (sym x_is_u) ∙ linked in
            let known : is_known v next.depths ≡ true =
              ground
                (arith, offer_all_known pages (d + 1) popped (adjacent u links) v, from_u, page) in
            inr (
              known,
              omega (
                arith,
                next-Level.low v known,
                (kept x before).1,
                ap (λ y. depth_of y s.depths) x_is_u,
              ),
            )
        | inr other ↦ elim (inv.closed x v before linked page) [
          | inl waits ↦
              let later : bytes_mem x rest ≡ true =
                ground (arith, ap (bytes_mem x) (sym head) ∙ waits, other) in
              inl (offer_all_queue pages (d + 1) popped (adjacent u links) x later)
          | inr (known, near) ↦
              inr ((kept v known).0, omega (arith, near, (kept v known).1, (kept x before).1))
        ]
      ]
    ]

    pub round-IsSearched : IsSearched pages seeds links d next
    round-IsSearched = record {
      level = next-Level;
      sound = next_sound;
      closed = next_closed;
      seeds_known = λ v among page.
          let (known, zero_deep) = inv.seeds_known v among page in
          ((kept v known).0, (kept v known).1 ∙ zero_deep);
    }
