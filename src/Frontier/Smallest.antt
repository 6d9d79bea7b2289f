-- ===== src/Frontier/Smallest.antt =====
-- A heap of the interface: a list, from which the first item of the least depth is taken.
use seo_crawler_mcp.Prelude.{
  Bool, true, false, Option, none, some, List, [], ◌∷◌, if◌then◌else◌, length, any, keep, ◌≡◌, refl,
  sym, arith, Option-cases, inl, inr, subst,
}
use seo_crawler_mcp.Frontier.{Item, less, Heap}

unfoldable pub beside : Item → Option (Item × List Item) → Item × List Item
beside x none = (x, [])
beside x (some (y, ys)) = if less y x then (y, x ∷ ys) else (x, y ∷ ys)

unfoldable pub extract : List Item → Option (Item × List Item)
extract [] = none
extract (x ∷ xs) = let rest = extract xs in some (beside x rest)

pub extract-none : (xs : List Item) → extract xs ≡ none → xs ≡ []
unfolding extract
extract-none [] h = refl
extract-none (x ∷ xs) h = absurd (cc h)

pub count-extract :
    (p : Item → Bool) (xs : List Item) (y : Item) (ys : List Item)
    → extract xs ≡ some (y, ys)
    → length (keep p xs) ≡ length (keep p (y ∷ ys))
unfolding extract beside
count-extract p [] y ys h = absurd (cc h)
count-extract p (x ∷ xs) y ys h = elim (Option-cases (extract xs)) [
  | inl empty ↦ ground (arith, h, empty, extract-none xs empty)
  | inr ((z, zs), taken) ↦ ground (arith, h, taken, count-extract p xs z zs taken)
]

none_less :
    (x y : Item) (ys : List Item)
    → less y x ≡ false
    → any (λ z. less z y) ys ≡ false
    → any (λ z. less z x) ys ≡ false
unfolding less
none_less x y [] h hs = refl
none_less x y (z ∷ zs) h hs = ground (arith, h, hs, none_less x y zs)

any-less_more :
    (x y : Item) (ys : List Item)
    → less y x ≡ true
    → any (λ z. less z y) ys ≡ false
    → any (λ z. less z y) (x ∷ ys) ≡ false
unfolding less
any-less_more x y ys h hs = ground (arith, h, hs)

abbrev pub IsLeast : Item × List Item → Type 0
IsLeast r = any (λ z. less z r.0) r.1 ≡ false

beside_less :
    (x z : Item) (zs : List Item) (b : Bool)
    → less z x ≡ b
    → IsLeast (z, zs)
    → IsLeast (if b then (z, x ∷ zs) else (x, z ∷ zs))
unfolding less
beside_less x z zs true h least = any-less_more x z zs h least
beside_less x z zs false h least = ground (arith, h, none_less x z zs h least)

pub extract-IsLeast :
    (xs : List Item) (y : Item) (ys : List Item) → extract xs ≡ some (y, ys) → IsLeast (y, ys)
unfolding extract beside
extract-IsLeast [] y ys h = absurd (cc h)
extract-IsLeast (x ∷ xs) y ys h = elim (Option-cases (extract xs)) [
  | inl empty ↦ let e : (y, ys) ≡ (x, []) = cc (h, empty) in subst IsLeast (sym e) refl
  | inr ((z, zs), taken) ↦
      let least = beside_less x z zs (less z x) refl (extract-IsLeast xs z zs taken) in
      let e : (if less z x then (z, x ∷ zs) else (x, z ∷ zs)) ≡ (y, ys) = cc (h, taken) in
      subst IsLeast e least
]

unfoldable pub smallest_first : Heap
smallest_first = record {
  Store = List Item;
  items = λ xs. xs;
  empty = [];
  heap_push = λ xs x. x ∷ xs;
  heap_pop = extract;
  items-empty = refl;
  items-heap_push = λ p h x. refl;
  heap_pop_none = extract-none;
  heap_pop_some = λ p h x rest taken. count-extract p h x rest taken;
  heap_pop_least = extract-IsLeast;
}
