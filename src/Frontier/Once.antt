-- ===== src/Frontier/Once.antt =====
-- No URL is handed out twice and none is lost.
use seo_crawler_mcp.Prelude.{
  ℕ, ◌+◌, Bool, false, ◌||◌, Option, none, some, List, [], ◌∷◌, ◌==◌, if◌then◌else◌, length, any,
  keep, ◌≡◌, sym, ap, ◌∙◌, Option-cases, inl, inr, arith,
}
use seo_crawler_mcp.Frontier.{Item, Heap, Queue, is_seen, new, push, pop, contains}

pub data Op : Type 0 where
  pushes : Item → Op
  pops : Op

unfoldable pub has_url : ℕ → Item → Bool
has_url id x = x.url_id == id

unfoldable pub is_push_of : ℕ → Op → Bool
is_push_of id (pushes x) = x.url_id == id
is_push_of id pops = false

abbrev pub times : ℕ → List Item → ℕ
times id xs = length (keep (has_url id) xs)

abbrev pub one_if : Bool → ℕ
one_if b = if b then 1 else 0

module _ (heap : Heap) where
  unfoldable pub with_popped : Option Item → List Item → List Item
  with_popped none out = out
  with_popped (some x) out = x ∷ out

  -- Some operations in order: the items that came out, the last one first, and the queue that is left.
  unfoldable pub run : List Op → List Item → Queue heap → List Item × Queue heap
  run [] out q = (out, q)
  run (pushes x ∷ ops) out q = run ops out (push heap x q)
  run (pops ∷ ops) out q = run ops (with_popped (pop heap q).0 out) (pop heap q).1

  -- How often a URL has come out or waits.
  unfoldable pub times_held : ℕ → List Item → Queue heap → ℕ
  times_held id out q = times id out + times id (heap.items q.h)

  push_fresh :
      (id : ℕ) (out : List Item) (x : Item) (q : Queue heap)
      → times_held id out q ≡ one_if (contains heap id q)
      → times_held id out (push heap x q) ≡ one_if (x.url_id == id || contains heap id q)
  unfolding times_held contains push is_seen has_url
  push_fresh id out x q held = ground (arith, held, heap.items-heap_push (has_url id) q.h x)

  push_seen :
      (id : ℕ) (x : Item) (q : Queue heap)
      → contains heap id (push heap x q) ≡ (x.url_id == id || contains heap id q)
  unfolding contains push is_seen
  push_seen id x q = ground arith

  pop_held :
      (id : ℕ) (out : List Item) (q : Queue heap)
      → times_held id (with_popped (pop heap q).0 out) (pop heap q).1 ≡ times_held id out q
  unfolding times_held pop with_popped has_url
  pop_held id out q = elim (Option-cases (heap.heap_pop q.h)) [
    | inl empty ↦ ground (arith, empty)
    | inr ((x, rest), taken) ↦
        ground (arith, taken, heap.heap_pop_some (has_url id) q.h x rest taken)
  ]

  pop_seen : (id : ℕ) (q : Queue heap) → contains heap id (pop heap q).1 ≡ contains heap id q
  unfolding contains pop
  pop_seen id q = elim (Option-cases (heap.heap_pop q.h)) [
    | inl empty ↦ ground (arith, empty)
    | inr ((x, rest), taken) ↦ ground (arith, taken)
  ]

  run_held :
      (ops : List Op) (id : ℕ) (out : List Item) (q : Queue heap)
      → times_held id out q ≡ one_if (contains heap id q)
      → times_held id (run ops out q).0 (run ops out q).1
        ≡ one_if (contains heap id q || any (is_push_of id) ops)
  unfolding run is_push_of
  run_held [] id out q held = ground (arith, held)
  run_held (pushes x ∷ ops) id out q held =
      let pushed = push_fresh id out x q held in
      let same = push_seen id x q in
      let rest = run_held ops id out (push heap x q) (pushed ∙ ap one_if (sym same)) in
      ground (arith, rest, same)
  run_held (pops ∷ ops) id out q held =
      let same = pop_seen id q in
      let popped = with_popped (pop heap q).0 out in
      let rest =
        run_held ops id popped (pop heap q).1 (pop_held id out q ∙ held ∙ ap one_if (sym same)) in
      ground (arith, rest, same)

  -- From an empty queue, after any pushes and pops, an item with a given URL id has come out or waits
  -- in the heap exactly once if one of the pushes was of that id, however many were, and never else.
  pub run_once :
      (ops : List Op) (id : ℕ)
      → times_held id (run ops [] (new heap)).0 (run ops [] (new heap)).1
        ≡ one_if (any (is_push_of id) ops)
  unfolding times_held contains new is_seen
  run_once ops id =
      let nothing_held = ap (λ xs. times id xs) heap.items-empty in
      let started : times id [] + times id (heap.items heap.empty) ≡ 0 =
        omega (arith, nothing_held) in
      ground (arith, run_held ops id [] (new heap) started)
