-- ===== src/Prelude/Split.antt =====
-- `strings.Split` and `strings.Join` at a one-byte separator, and that each undoes the other.
use seo_crawler_mcp.Prelude.Texts.{Bytes}
use seo_crawler_mcp.Prelude.Tests.{◌==◌, if◌then◌else◌, Bool-cases}
use seo_crawler_mcp.Prelude.Lists.{All}
use Prim.Native.Nat.{ℕ}
use mathlib.Core.Path.{◌≡◌, refl, ap}
use mathlib.Core.Logic.{◌≢◌, inl, inr}
use mathlib.Core.List.{List, [], ◌∷◌, ◌++◌}
use native.Mathlib.Omega.{arith}

unfoldable pub cons_head : ℕ → List Bytes → List Bytes
cons_head x [] = (x ∷ []) ∷ []
cons_head x (s ∷ ss) = (x ∷ s) ∷ ss

unfoldable pub split : ℕ → Bytes → List Bytes
unfolding cons_head
split c [] = [] ∷ []
split c (x ∷ xs) = let rest = split c xs in if x == c then [] ∷ rest else cons_head x rest

unfoldable pub join : ℕ → List Bytes → Bytes
join c [] = []
join c (s ∷ []) = s
join c (s ∷ t ∷ ts) = s ++ c ∷ join c (t ∷ ts)

join-cons_head :
    (c x : ℕ) (s : Bytes) (ss : List Bytes) → join c (cons_head x (s ∷ ss)) ≡ x ∷ join c (s ∷ ss)
unfolding join cons_head
join-cons_head c x s [] = refl
join-cons_head c x s (t ∷ ts) = refl

-- Splitting gives at least one piece.
pub split-cons : (c : ℕ) (s : Bytes) → (x : Bytes) × (xs : List Bytes) × (split c s ≡ x ∷ xs)
unfolding split
split-cons c [] = ([], [], refl)
split-cons c (x ∷ s) = elim (Bool-cases (x == c)) [
  | inl e ↦ ([], split c s, rw e)
  | inr e ↦ let (t, ts, h) = split-cons c s in (x ∷ t, ts, rw e (rw h refl))
]

join-nil_cons : (c : ℕ) (s : Bytes) (ss : List Bytes) → join c ([] ∷ s ∷ ss) ≡ c ∷ join c (s ∷ ss)
unfolding join
join-nil_cons c s ss = refl

join_single_nil : (c : ℕ) → join c ([] ∷ []) ≡ []
unfolding join
join_single_nil c = refl

pub join-split : (c : ℕ) (s : Bytes) → join c (split c s) ≡ s
unfolding split
join-split c [] = join_single_nil c
join-split c (x ∷ s) =
    let (t, ts, h) = split-cons c s in
    let ih = rw h at (join-split c s) in
    elim (Bool-cases (x == c)) [
      | inl e ↦ rw e (rw h (rw (join-nil_cons c t ts) (ground (arith, ih))))
      | inr e ↦ rw e (rw h (rw (join-cons_head c x t ts) (ground (arith, ih))))
    ]

-- No piece holds the separator, and they are at least one: then splitting undoes joining.
abbrev pub HasNoByte : ℕ → Bytes → Type 0
HasNoByte c s = All (λ x. x ≢ c) s

pub split-append :
    (c : ℕ) (s rest : Bytes) → HasNoByte c s → split c (s ++ c ∷ rest) ≡ s ∷ split c rest
unfolding split cons_head
split-append c [] rest h = ground arith
split-append c (x ∷ s) rest h = ground (arith, split-append c s rest h.1)

pub split_of_HasNoByte : (c : ℕ) (s : Bytes) → HasNoByte c s → split c s ≡ s ∷ []
unfolding split cons_head
split_of_HasNoByte c [] h = refl
split_of_HasNoByte c (x ∷ s) h = ground (arith, split_of_HasNoByte c s h.1)

pub split-join :
    (c : ℕ) (s : Bytes) (ss : List Bytes)
    → All (HasNoByte c) (s ∷ ss)
    → split c (join c (s ∷ ss)) ≡ s ∷ ss
unfolding join
split-join c s [] h = split_of_HasNoByte c s h.0
split-join c s (t ∷ ts) h =
    rw (split-append c s (join c (t ∷ ts)) h.0) (ap (◌∷◌ s) (split-join c t ts h.1))

cons_head-HasNoByte :
    (c x : ℕ) (ss : List Bytes) → x ≢ c → All (HasNoByte c) ss → All (HasNoByte c) (cons_head x ss)
unfolding cons_head
cons_head-HasNoByte c x [] n h = ((n, tt), tt)
cons_head-HasNoByte c x (s ∷ ss) n h = ((n, h.0), h.1)

pub split-HasNoByte : (c : ℕ) (s : Bytes) → All (HasNoByte c) (split c s)
unfolding split
split-HasNoByte c [] = (tt, tt)
split-HasNoByte c (x ∷ s) = elim (Bool-cases (x == c)) [
  | inl e ↦ rw e (tt, split-HasNoByte c s)
  | inr e ↦ rw e (cons_head-HasNoByte c x (split c s) (ground arith) (split-HasNoByte c s))
]
