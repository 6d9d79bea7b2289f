-- ===== src/Engine/Variants/Traps.antt =====
-- A path gives one issue, once it has more queries than it may.
use seo_crawler_mcp.Prelude.{
  ℕ, ◌+◌, Bool, not, ◌&&◌, List, [], ◌∷◌, Bytes, bytes_eq, bytes_eq_iff, bytes_eq_refl, bytes_mem,
  if◌then◌else◌, ltb, length, any, ◌≡◌, refl, arith,
}
use seo_crawler_mcp.Engine.Variants.{
  Tracker, new_query_variants_tracker, bucket_of, with_query, observe,
}

-- A URL that was found, by its path and its query.
pub record Found : Type 0 where
  pub path : Bytes
  pub query : Bytes

abbrev pub one_if : Bool → ℕ
one_if b = if b then 1 else 0

unfoldable pub same_url : Found → Found → Bool
same_url a b = bytes_eq b.path a.path && bytes_eq b.query a.query

-- How many queries a path has had, the last URL of the history being first.
unfoldable pub queries_of : Bytes → List Found → ℕ
queries_of path [] = 0
queries_of path (f ∷ before) =
    queries_of path before + one_if (bytes_eq f.path path && not (any (same_url f) before))

module _ (threshold : ℕ) where
  unfoldable pub tracked : List Found → Tracker
  tracked [] = new_query_variants_tracker
  tracked (f ∷ before) = (observe f.path f.query threshold (tracked before)).1

  unfoldable pub emits : Found → List Found → Bool
  emits f before = (observe f.path f.query threshold (tracked before)).0.1

  -- How many issues a path has given.
  unfoldable pub issues_of : Bytes → List Found → ℕ
  issues_of path [] = 0
  issues_of path (f ∷ before) =
      issues_of path before + one_if (bytes_eq f.path path && emits f before)

  abbrev bucket : Bytes → List Found → List Bytes
  bucket path history = bucket_of path (tracked history).seen

  bucket-mem :
      (f : Found) (history : List Found)
      → bytes_mem f.query (bucket f.path history) ≡ any (same_url f) history
  unfolding tracked observe bucket_of with_query bytes_mem new_query_variants_tracker same_url
  bucket-mem f [] = refl
  bucket-mem f (g ∷ before) = ground (
    arith,
    bucket-mem f before,
    bucket-mem g before,
    bytes_eq_iff g.path f.path,
    bytes_eq_iff g.query f.query,
    bytes_eq_iff f.query g.query,
  )

  bucket-length :
      (path : Bytes) (history : List Found) → length (bucket path history) ≡ queries_of path history
  unfolding tracked observe bucket_of with_query new_query_variants_tracker queries_of
  bucket-length path [] = refl
  bucket-length path (f ∷ before) =
      ground (arith, bucket-length path before, bucket-mem f before, bytes_eq_iff f.path path)

  with_query-length :
      (f : Found) (before : List Found)
      → length (with_query f.query (bucket f.path before)) ≡ queries_of f.path (f ∷ before)
  unfolding with_query queries_of
  with_query-length f before =
      ground (arith, bucket-length f.path before, bucket-mem f before, bytes_eq_refl f.path)

  flagged-mem :
      (path : Bytes) (history : List Found)
      → bytes_mem path (tracked history).flagged ≡ ltb threshold (queries_of path history)
  unfolding tracked observe bytes_mem new_query_variants_tracker queries_of
  flagged-mem path [] = ground arith
  flagged-mem path (f ∷ before) = ground (
    arith,
    flagged-mem path before,
    flagged-mem f.path before,
    with_query-length f before,
    bytes_eq_iff f.path path,
    bytes_eq_iff path f.path,
    bytes_eq_refl f.path,
  )

  -- Whatever URLs are found in whatever order, the tracker has by then asked for one issue on a path if
  -- the path has had more different queries than the threshold, and for none else; and what it says of
  -- the next URL found is how many different queries its path has had with it.
  pub issues_of-queries_of :
      (path : Bytes) (f : Found) (history : List Found)
      → (issues_of path history ≡ one_if (ltb threshold (queries_of path history)))
        × ((observe f.path f.query threshold (tracked history)).0.0
            ≡ queries_of f.path (f ∷ history))
  unfolding issues_of emits observe tracked queries_of
  issues_of-queries_of path f [] = (ground arith, with_query-length f [])
  issues_of-queries_of path f (g ∷ before) = (
    ground (
      arith,
      (issues_of-queries_of path f before).0,
      flagged-mem g.path before,
      with_query-length g before,
      bytes_eq_iff g.path path,
    ),
    with_query-length f (g ∷ before),
  )
