-- ===== src/Frontier.antt =====
-- The queue of URLs to crawl (internal/frontier/queue.go). Each operation holds the lock and is one
-- step. The heap of the standard library with the Len, Swap, Push and Pop of itemHeap
-- that it calls is an interface: what it holds, as a list, and what heap.Push
-- and heap.Pop promise with the order of itemHeap, which leaves open which of two items of one depth
-- comes first.
pub mod Once
pub mod Smallest
use seo_crawler_mcp.Prelude.{
  ℕ, suc, Bool, true, false, ◌||◌, Option, none, some, List, [], ◌∷◌, Bytes, ltb, ◌==◌,
  if◌then◌else◌, length, any, keep, ◌≡◌,
}

pub record Item : Type 0 where
  pub url_id : ℕ
  pub normalized_url : Bytes
  pub host : Bytes
  pub depth : ℕ

unfoldable pub less : Item → Item → Bool
less a b = ltb a.depth b.depth

pub record Heap : Type 1 where
  pub Store : Type 0
  pub items : Store → List Item
  pub empty : Store
  pub heap_push : Store → Item → Store
  pub heap_pop : Store → Option (Item × Store)
  pub items-empty : items empty ≡ []
  pub items-heap_push :
      (p : Item → Bool) (h : Store) (x : Item)
      → length (keep p (items (heap_push h x))) ≡ length (keep p (x ∷ items h))
  pub heap_pop_none : (h : Store) → heap_pop h ≡ none → items h ≡ []
  pub heap_pop_some :
      (p : Item → Bool) (h : Store) (x : Item) (rest : Store)
      → heap_pop h ≡ some (x, rest)
      → length (keep p (items h)) ≡ length (keep p (x ∷ items rest))
  pub heap_pop_least :
      (h : Store) (x : Item) (rest : Store)
      → heap_pop h ≡ some (x, rest)
      → any (λ y. less y x) (items rest) ≡ false

module _ (heap : Heap) where
  pub record Queue : Type 0 where
    pub h : heap.Store
    pub seen : List ℕ

  unfoldable pub is_seen : ℕ → List ℕ → Bool
  is_seen id [] = false
  is_seen id (x ∷ xs) = x == id || is_seen id xs

  unfoldable pub new : Queue
  new = record { h = heap.empty; seen = [] }

  unfoldable pub push : Item → Queue → Queue
  push item q =
      if is_seen item.url_id q.seen
      then q
      else record { h = heap.heap_push q.h item; seen = item.url_id ∷ q.seen }

  unfoldable pub pop : Queue → Option Item × Queue
  pop q = elim (heap.heap_pop q.h) [
    | none ↦ (none, q)
    | some (x, rest) ↦ (some x, record q { h = rest })
  ]

  unfoldable pub len : Queue → ℕ
  len q = length (heap.items q.h)

  -- The root of the heap is what heap.Pop takes; `none` is the item of zero values.
  unfoldable pub peek : Queue → Option Item
  peek q = elim (heap.heap_pop q.h) [ none ↦ none | some (x, rest) ↦ some x ]

  unfoldable pub contains : ℕ → Queue → Bool
  contains id q = is_seen id q.seen
