-- ===== src/Engine/Depths/Ending.antt =====
-- The loop ends: each round takes a page from the queue, and each page is queued once.
use seo_crawler_mcp.Prelude.{
  ℕ, zero, suc, ◌+◌, ◌≤◌, true, false, not, some, List, [], ◌∷◌, Bytes, bytes_eq_iff, keep, length,
  length-append, ◌≡◌, refl, ◌⊎◌, inl, inr, arith,
}
use seo_crawler_mcp.Engine.Depths.{
  PageNode, Link, Depths, is_known, depth_of, is_page, adjacent, Search, offer, offer_all, seeded,
  round, search,
}

abbrev pub unknown : List PageNode → Depths → ℕ
unknown pages depths = length (keep (λ p. not (is_known p.normalized_url depths)) pages)

unknown-le :
    (pages : List PageNode) (depths : Depths) (v : Bytes) (d : ℕ)
    → unknown pages ((v, d) ∷ depths) ≤ unknown pages depths
unfolding is_known
unknown-le [] depths v d = omega arith
unknown-le (p ∷ ps) depths v d = ground (arith, unknown-le ps depths v d)

unknown-lt :
    (pages : List PageNode) (depths : Depths) (v : Bytes) (d : ℕ)
    → is_page v pages ≡ true
    → is_known v depths ≡ false
    → suc (unknown pages ((v, d) ∷ depths)) ≤ unknown pages depths
unfolding is_known is_page
unknown-lt [] depths v d page fresh = absurd (cc page)
unknown-lt (p ∷ ps) depths v d page fresh = ground (
  arith,
  page,
  fresh,
  unknown-lt ps depths v d,
  unknown-le ps depths v d,
  bytes_eq_iff p.normalized_url v,
  bytes_eq_iff v p.normalized_url,
)

module _ (pages : List PageNode) where
  -- What is still to do: pages without a depth, and pages that wait.
  abbrev pub work : Search → ℕ
  work s = unknown pages s.depths + length s.queue

  work-offer : (m : ℕ) (s : Search) (next : Bytes) → work (offer pages m s next) ≤ work s
  unfolding offer
  work-offer m s next =
      ground (arith, unknown-lt pages s.depths next m, length-append s.queue (next ∷ []))

  pub work-offer_all :
      (m : ℕ) (s : Search) (nexts : List Bytes) → work (offer_all pages m s nexts) ≤ work s
  unfolding offer_all
  work-offer_all m s [] = omega arith
  work-offer_all m s (next ∷ rest) =
      omega (arith, work-offer m s next, work-offer_all m (offer pages m s next) rest)

  unknown-length : (ps : List PageNode) (depths : Depths) → unknown ps depths ≤ length ps
  unknown-length [] depths = omega arith
  unknown-length (p ∷ ps) depths = ground (arith, unknown-length ps depths)

  pub work-seeded : (seeds : List Bytes) → work (seeded pages seeds) ≤ length pages
  unfolding seeded
  work-seeded seeds =
      let start : Search = record { depths = []; queue = [] } in
      omega (arith, work-offer_all 0 start seeds, unknown-length pages [])

pub List-cases {ℓ} :
    {A : Type ℓ} (xs : List A) → (xs ≡ []) ⊎ ((x : A) × (ys : List A) × (xs ≡ x ∷ ys))
List-cases [] = inl refl
List-cases (x ∷ xs) = inr (x, xs, refl)

-- What each round keeps holds at the end, where the queue is empty, if the fuel is enough.
pub search_ends :
    (pages : List PageNode) (links : List Link) (P : Search → Type 0)
    → ((s : Search) (u : Bytes) (rest : List Bytes)
        → s.queue ≡ u ∷ rest
        → P s
        → P (round pages links u rest s.depths))
    → (fuel : ℕ) (s : Search) → work pages s ≤ fuel
    → P s
    → (t : Search) × (search pages links fuel s ≡ some t.depths) × (t.queue ≡ []) × P t
unfolding search round
search_ends pages links P keeps zero s enough p = elim (List-cases s.queue) [
  | inl empty ↦ (s, ground (arith, empty), empty, p)
  | inr (u, rest, e) ↦ absurd (ground (arith, enough, e))
]
search_ends pages links P keeps (suc fuel) s enough p = elim (List-cases s.queue) [
  | inl empty ↦ (s, ground (arith, empty), empty, p)
  | inr (u, rest, e) ↦
      let popped : Search = record { depths = s.depths; queue = rest } in
      let less = work-offer_all pages (depth_of u s.depths + 1) popped (adjacent u links) in
      let next = round pages links u rest s.depths in
      let (t, done, empty, q) =
        search_ends pages links P keeps fuel next (ground (arith, less, enough, e))
          (keeps s u rest e p) in
      (t, ground (arith, e, done), empty, q)
]
