-- ===== src/Engine/Depths/Offer.antt =====
-- What the inner loop does to the depths and to the queue.
use seo_crawler_mcp.Prelude.{
  ℕ, ◌≤◌, Bool, true, false, not, ◌&&◌, ◌||◌, List, [], ◌∷◌, ◌++◌, Bytes, bytes_eq, bytes_eq_iff,
  bytes_eq_refl, bytes_mem, if◌then◌else◌, leb, Bool-cases, ◌≡◌, refl, sym, ◌∙◌, subst, inl, inr,
  arith,
}
use seo_crawler_mcp.Engine.Depths.{
  PageNode, Depths, is_known, depth_of, is_page, Search, offer, offer_all,
}

-- The depths along a queue do not fall, and are not below a bound.
unfoldable pub ascending : Depths → ℕ → List Bytes → Bool
ascending depths lo [] = true
ascending depths lo (u ∷ us) = leb lo (depth_of u depths) && ascending depths (depth_of u depths) us

pub bytes_mem-append :
    (v : Bytes) (us : List Bytes) (w : Bytes)
    → bytes_mem v (us ++ w ∷ []) ≡ (bytes_mem v us || bytes_eq v w)
unfolding bytes_mem
bytes_mem-append v [] w = ground arith
bytes_mem-append v (u ∷ us) w = ground (arith, bytes_mem-append v us w)

-- A page that was not known comes to the end of the queue.
ascending-append :
    (depths : Depths) (m lo : ℕ) (us : List Bytes) (w : Bytes)
    → lo ≤ m
    → ascending depths lo us ≡ true
    → ((v : Bytes) → bytes_mem v us ≡ true → is_known v depths ≡ true)
    → ((v : Bytes) → is_known v depths ≡ true → depth_of v depths ≤ m)
    → is_known w depths ≡ false
    → ascending ((w, m) ∷ depths) lo (us ++ w ∷ []) ≡ true
unfolding ascending depth_of bytes_mem is_known
ascending-append depths m lo [] w below sorted known low fresh =
    ground (arith, below, bytes_eq_refl w)
ascending-append depths m lo (u ∷ us) w below sorted known low fresh =
    let u_known : is_known u depths ≡ true = known u (ground (arith, bytes_eq_refl u)) in
    let rest =
      ascending-append depths m (depth_of u depths) us w (low u u_known) (ground (arith, sorted))
        (λ v among. known v (ground (arith, among))) low fresh in
    let apart : bytes_eq w u ≡ false = ground (arith, bytes_eq_iff w u, u_known, fresh) in
    ground (arith, rest, apart, sorted)

-- Every known page has at most this depth, and the queue holds known pages in the order of depth.
pub record Level (lo m : ℕ) (s : Search) : Type 0 where
  pub ordered : ascending s.depths lo s.queue ≡ true
  pub low : (v : Bytes) → is_known v s.depths ≡ true → depth_of v s.depths ≤ m
  pub queued : (v : Bytes) → bytes_mem v s.queue ≡ true → is_known v s.depths ≡ true

module _ (pages : List PageNode) (m : ℕ) where
  pub offer_known :
      (s : Search) (next v : Bytes)
      → is_known v (offer pages m s next).depths
        ≡ (is_known v s.depths || (bytes_eq next v && is_page next pages))
  unfolding offer is_known
  offer_known s next v = ground (arith, bytes_eq_iff next v)

  pub offer_depth :
      (s : Search) (next v : Bytes)
      → is_known v s.depths ≡ true
      → depth_of v (offer pages m s next).depths ≡ depth_of v s.depths
  unfolding offer depth_of
  offer_depth s next v known = ground (arith, bytes_eq_iff next v, known)

  pub offer_fresh :
      (s : Search) (next v : Bytes)
      → is_known v s.depths ≡ false
      → is_known v (offer pages m s next).depths ≡ true
      → (depth_of v (offer pages m s next).depths ≡ m)
        × (bytes_mem v (offer pages m s next).queue ≡ true)
        × (bytes_eq next v ≡ true)
        × (is_page v pages ≡ true)
  unfolding offer depth_of is_known
  offer_fresh s next v fresh now =
      ground
        (arith, fresh, now, bytes_eq_iff next v, bytes_eq_refl v, bytes_mem-append v s.queue next)

  pub offer_queue :
      (s : Search) (next v : Bytes)
      → bytes_mem v s.queue ≡ true
      → bytes_mem v (offer pages m s next).queue ≡ true
  unfolding offer
  offer_queue s next v among = ground (arith, among, bytes_mem-append v s.queue next)

  offer-Level :
      (lo : ℕ) (s : Search) (next : Bytes)
      → lo ≤ m
      → Level lo m s
      → Level lo m (offer pages m s next)
  unfolding offer is_known depth_of
  offer-Level lo s next below level =
      let longer : Search = record {
        depths = (next, m) ∷ s.depths;
        queue = s.queue ++ next ∷ [];
      } in
      elim (Bool-cases (is_page next pages && not (is_known next s.depths))) [
        | inr stays ↦ subst (λ b. Level lo m (if b then longer else s)) (sym stays) level
        | inl added ↦
            let fresh : is_known next s.depths ≡ false = ground (arith, added) in
            let longer_level : Level lo m longer = record {
              ordered =
                  ascending-append s.depths m lo s.queue next below level.ordered level.queued
                    level.low fresh;
              low = λ v h. ground (arith, h, level.low v);
              queued = λ v h. ground (
                arith,
                h,
                level.queued v,
                bytes_mem-append v s.queue next,
                bytes_eq_iff v next,
                bytes_eq_refl next,
              );
            } in
            subst (λ b. Level lo m (if b then longer else s)) (sym added) longer_level
      ]

  pub offer_all-Level :
      (lo : ℕ) (s : Search) (nexts : List Bytes)
      → lo ≤ m
      → Level lo m s
      → Level lo m (offer_all pages m s nexts)
  unfolding offer_all
  offer_all-Level lo s [] below level = level
  offer_all-Level lo s (next ∷ rest) below level =
      offer_all-Level lo (offer pages m s next) rest below (offer-Level lo s next below level)

  pub offer_all_known :
      (s : Search) (nexts : List Bytes) (v : Bytes)
      → is_known v (offer_all pages m s nexts).depths
        ≡ (is_known v s.depths || (bytes_mem v nexts && is_page v pages))
  unfolding offer_all bytes_mem
  offer_all_known s [] v = ground arith
  offer_all_known s (next ∷ rest) v = ground (
    arith,
    offer_all_known (offer pages m s next) rest v,
    offer_known s next v,
    bytes_eq_iff next v,
    bytes_eq_iff v next,
  )

  pub offer_all_depth :
      (s : Search) (nexts : List Bytes) (v : Bytes)
      → is_known v s.depths ≡ true
      → depth_of v (offer_all pages m s nexts).depths ≡ depth_of v s.depths
  unfolding offer_all
  offer_all_depth s [] v known = refl
  offer_all_depth s (next ∷ rest) v known =
      offer_all_depth (offer pages m s next) rest v (ground (arith, offer_known s next v, known))
      ∙ offer_depth s next v known

  pub offer_all_queue :
      (s : Search) (nexts : List Bytes) (v : Bytes)
      → bytes_mem v s.queue ≡ true
      → bytes_mem v (offer_all pages m s nexts).queue ≡ true
  unfolding offer_all
  offer_all_queue s [] v among = among
  offer_all_queue s (next ∷ rest) v among =
      offer_all_queue (offer pages m s next) rest v (offer_queue s next v among)

  -- A page that gets its depth gets this one, and waits, and is among those offered.
  pub offer_all_fresh :
      (s : Search) (nexts : List Bytes) (v : Bytes)
      → is_known v s.depths ≡ false
      → is_known v (offer_all pages m s nexts).depths ≡ true
      → (depth_of v (offer_all pages m s nexts).depths ≡ m)
        × (bytes_mem v (offer_all pages m s nexts).queue ≡ true)
        × (bytes_mem v nexts ≡ true)
        × (is_page v pages ≡ true)
  unfolding offer_all bytes_mem
  offer_all_fresh s [] v fresh now = absurd (cc (fresh, now))
  offer_all_fresh s (next ∷ rest) v fresh now =
      let after = offer pages m s next in
      elim (Bool-cases (is_known v after.depths)) [
        | inl here ↦
            let (at_m, waits, same, page) = offer_fresh s next v fresh here in
            (
              offer_all_depth after rest v here ∙ at_m,
              offer_all_queue after rest v waits,
              ground (arith, same, bytes_eq_iff next v, bytes_eq_refl v),
              page,
            )
        | inr later ↦
            let (at_m, waits, among, page) = offer_all_fresh after rest v later now in
            (at_m, waits, ground (arith, among), page)
      ]
