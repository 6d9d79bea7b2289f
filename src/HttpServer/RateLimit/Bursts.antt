-- ===== src/HttpServer/RateLimit/Bursts.antt =====
-- How many requests of one client pass within a window, and what the collector changes.
use seo_crawler_mcp.Prelude.{
  ℕ, suc, ◌+◌, ◌-◌, ◌*◌, ◌<◌, ◌≤◌, Bool, true, false, none, some, List, [], ◌∷◌, Bytes,
  bytes_eq_refl, if◌then◌else◌, leb, length, All, ◌≡◌, refl, ◌∙◌, arith, ◌⊎◌, inl, inr, Bool-cases,
  Option-cases,
}
use seo_crawler_mcp.HttpServer.RateLimit.{WindowState, RateLimiter, put_hit, is_over, allow, gc}

-- The requests that pass, of a client that sends them at the times.
unfoldable pub passing : RateLimiter → Bytes → List ℕ → ℕ
passing rl key [] = 0
passing rl key (now ∷ later) =
    let step = allow rl key now in
    let rest = passing step.1 key later in if step.0 then suc rest else rest

abbrev pub smaller : ℕ → ℕ → ℕ
smaller m n = if leb m n then m else n

-- A decision, by the entry of the key.
allow_open :
    (rl : RateLimiter) (key : Bytes) (now : ℕ) (st : WindowState)
    → rl.hits key ≡ some st
    → is_over rl.window st.start now ≡ false
    → allow rl key now ≡ (
        if leb rl.limit st.count
        then (false, rl)
        else (true, put_hit rl key (record st { count = suc st.count })))
unfolding allow
allow_open rl key now st found going = ground (arith, found, going)

put_hit_same :
    (rl : RateLimiter) (key : Bytes) (st : WindowState) → (put_hit rl key st).hits key ≡ some st
unfolding put_hit
put_hit_same rl key st = ground (arith, bytes_eq_refl key)

put_hit_limit :
    (rl : RateLimiter) (key : Bytes) (st : WindowState) → (put_hit rl key st).limit ≡ rl.limit
unfolding put_hit
put_hit_limit rl key st = refl

put_hit_window :
    (rl : RateLimiter) (key : Bytes) (st : WindowState)
    → 0 < rl.window
    → 0 < (put_hit rl key st).window
unfolding put_hit
put_hit_window rl key st pos = pos

put_hit_inside :
    (rl : RateLimiter) (key : Bytes) (st : WindowState) (start : ℕ) (times : List ℕ)
    → All (λ now. now < start + rl.window) times
    → All (λ now. now < start + (put_hit rl key st).window) times
unfolding put_hit
put_hit_inside rl key st start times inside = inside

allow_closed :
    (rl : RateLimiter) (key : Bytes) (now : ℕ)
    → (rl.hits key ≡ none)
      ⊎ ((st : WindowState) × (rl.hits key ≡ some st) × (is_over rl.window st.start now ≡ true))
    → allow rl key now ≡ (true, put_hit rl key (record { count = 1; start = now }))
unfolding allow
allow_closed rl key now (inl unknown) = ground (arith, unknown)
allow_closed rl key now (inr (st, found, over)) = ground (arith, found, over)

is_over_before :
    (window start now : ℕ) → 0 < window → now < start + window → is_over window start now ≡ false
unfolding is_over
is_over_before window start now pos lt = ground arith

passing_step :
    (rl rl' : RateLimiter) (key : Bytes) (now : ℕ) (later : List ℕ) (b : Bool)
    → allow rl key now ≡ (b, rl')
    → passing rl key (now ∷ later)
      ≡ (if b then suc (passing rl' key later) else passing rl' key later)
unfolding passing
passing_step rl rl' key now later b decides = ground (arith, decides)

-- What is left of a window passes, and no more.
passing_open :
    (rl : RateLimiter) (key : Bytes) (st : WindowState) (times : List ℕ)
    → 0 < rl.window
    → rl.hits key ≡ some st
    → All (λ now. now < st.start + rl.window) times
    → passing rl key times ≡ smaller (length times) (rl.limit - st.count)
unfolding passing
passing_open rl key st [] pos found inside = ground arith
passing_open rl key st (now ∷ later) pos found (now_inside, later_inside) =
    let going = is_over_before rl.window st.start now pos now_inside in
    let decides = allow_open rl key now st found going in
    elim (Bool-cases (leb rl.limit st.count)) [
      | inl full ↦
          let rest = passing_open rl key st later pos found later_inside in
          let step = passing_step rl rl key now later false (ground (arith, decides, full)) in
          ground (arith, rest, step, full)
      | inr room ↦
          let next = record st { count = suc st.count } in
          let rest =
            passing_open (put_hit rl key next) key next later (put_hit_window rl key next pos)
              (put_hit_same rl key next) (put_hit_inside rl key next st.start later later_inside) in
          let step =
            passing_step rl (put_hit rl key next) key now later true
              (ground (arith, decides, room)) in
          ground (arith, rest, step, room, put_hit_limit rl key next)
    ]

-- A client with no window, or one that is over, opens a window with its first request. Of the
-- requests that it sends before that window ends, the first passes, then as many as the limit leaves,
-- and no more.
pub passing_burst :
    (rl : RateLimiter) (key : Bytes) (now : ℕ) (times : List ℕ)
    → 0 < rl.window
    → (rl.hits key ≡ none)
      ⊎ ((st : WindowState) × (rl.hits key ≡ some st) × (is_over rl.window st.start now ≡ true))
    → All (λ later. later < now + rl.window) times
    → passing rl key (now ∷ times) ≡ suc (smaller (length times) (rl.limit - 1))
passing_burst rl key now times pos closed inside =
    let first : WindowState = record { count = 1; start = now } in
    let rest =
      passing_open (put_hit rl key first) key first times (put_hit_window rl key first pos)
        (put_hit_same rl key first) (put_hit_inside rl key first now times inside) in
    let step =
      passing_step rl (put_hit rl key first) key now times true (allow_closed rl key now closed) in
    ground (arith, rest, step, put_hit_limit rl key first)

gc_found :
    (rl : RateLimiter) (key : Bytes) (now : ℕ)
    → ((gc rl now).hits key ≡ rl.hits key)
      ⊎ (((gc rl now).hits key ≡ none)
          × ((st : WindowState) × (rl.hits key ≡ some st)
              × (is_over (rl.window * 2) st.start now ≡ true)))
unfolding gc
gc_found rl key now = elim (Option-cases (rl.hits key)) [
  | inl unknown ↦ inl (ground (arith, unknown))
  | inr (st, found) ↦ elim (Bool-cases (is_over (rl.window * 2) st.start now)) [
    | inl over ↦ inr (ground (arith, found, over), (st, found, over))
    | inr going ↦ inl (ground (arith, found, going))
  ]
]

is_over_later :
    (window start now later : ℕ)
    → now ≤ later
    → is_over (window * 2) start now ≡ true
    → is_over window start later ≡ true
unfolding is_over
is_over_later window start now later le over = ground arith

-- Limiters with the same settings that know the same of a client decide the same of it.
Agree : RateLimiter → RateLimiter → Bytes → ℕ → Type 0
Agree rl rl' key now =
    ((allow rl' key now).0 ≡ (allow rl key now).0)
    × ((allow rl' key now).1.hits key ≡ (allow rl key now).1.hits key)

closed-Agree :
    (rl rl' : RateLimiter) (key : Bytes) (now : ℕ)
    → allow rl key now ≡ (true, put_hit rl key (record { count = 1; start = now }))
    → allow rl' key now ≡ (true, put_hit rl' key (record { count = 1; start = now }))
    → Agree rl rl' key now
unfolding Agree
closed-Agree rl rl' key now opens opens' =
    let new : WindowState = record { count = 1; start = now } in
    ground (arith, opens, opens', put_hit_same rl key new, put_hit_same rl' key new)

allow-Agree :
    (rl rl' : RateLimiter) (key : Bytes) (now : ℕ)
    → (rl'.limit ≡ rl.limit) × (rl'.window ≡ rl.window)
    → rl'.hits key ≡ rl.hits key
    → Agree rl rl' key now
unfolding Agree
allow-Agree rl rl' key now (limits, windows) same = elim (Option-cases (rl.hits key)) [
  | inl unknown ↦
      closed-Agree rl rl' key now (allow_closed rl key now (inl unknown))
        (allow_closed rl' key now (inl (same ∙ unknown)))
  | inr (st, found) ↦ elim (Bool-cases (is_over rl.window st.start now)) [
    | inl over ↦
        closed-Agree rl rl' key now (allow_closed rl key now (inr (st, found, over)))
          (allow_closed rl' key now (inr (st, same ∙ found, cc (windows, over))))
    | inr going ↦
        let next : WindowState = record st { count = suc st.count } in
        let open_ = allow_open rl key now st found going in
        let open' = allow_open rl' key now st (same ∙ found) (cc (windows, going)) in
        ground
          (arith, open_, open', limits, same, put_hit_same rl key next, put_hit_same rl' key next)
  ]
]

gc_settings :
    (rl : RateLimiter) (now : ℕ) → ((gc rl now).limit ≡ rl.limit) × ((gc rl now).window ≡ rl.window)
unfolding gc
gc_settings rl now = (refl, refl)

-- A sweep of the collector does not change whether a later request passes, nor the window that its
-- client has afterwards.
pub allow-gc :
    (rl : RateLimiter) (key : Bytes) (now later : ℕ)
    → now ≤ later
    → ((allow (gc rl now) key later).0 ≡ (allow rl key later).0)
      × ((allow (gc rl now) key later).1.hits key ≡ (allow rl key later).1.hits key)
unfolding Agree
allow-gc rl key now later le = elim (gc_found rl key now) [
  | inl kept ↦ allow-Agree rl (gc rl now) key later (gc_settings rl now) kept
  | inr (dropped, (st, found, over)) ↦
      let closed = allow_closed (gc rl now) key later (inl dropped) in
      let opened =
        allow_closed rl key later
          (inr (st, found, is_over_later rl.window st.start now later le over)) in
      let new : WindowState = record { count = 1; start = later } in
      ground (arith, closed, opened, put_hit_same rl key new, put_hit_same (gc rl now) key new)
]
